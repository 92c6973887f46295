-- ===== src/Lib.antt =====
-- Verification of beckn-onix, the adapter between a network participant and the Beckn network.
--
-- A module of the adapter receives an HTTP request, runs a pipeline of steps over it (validate the
-- signature, validate the schema, determine the route, sign, ...), forwards or publishes the message,
-- and answers with an ACK or a NACK, which is signed as well. The development models the pipeline,
-- the plugins that decide what happens to a message (router, signer, signature validator), the
-- store of payloads, the crawler of catalogs, and the error types that they share.
--
-- Model: pkg/model. Model/Error has the error types of error.go: a Go error is a tree (GoError), with
-- a constructor for each type that the handler tells apart; errors.As is a search along the chain of
-- Unwrap. Model/Version and Model/Context have the protocol version, roles, declared identities,
-- ExtractContext, and the step context of model.go. Model/Json has decoded JSON and the Codec, which
-- stands for encoding/json. Model/Result has the values that Go returns as (value, error).
--
-- Router: pkg/plugin/implementation/router/router.go. Router/Rules loads and validates the rules
-- (loadRules, validateRules), Router/Lookup finds a route (Route, routeBodyless,
-- handleProtocolMapping). Reading the file, YAML and net/url are arguments (Files). Go ranges over a
-- map in no fixed order: the order is an argument, of which only is known that it loses and adds
-- nothing. Router/Spec and Router/Loading say which route a list of rules declares, Router/Known,
-- Router/Routing and Router/Order what lookups return.
--
-- Signature: the headers that core/module/handler/step.go and responsestep.go write and read
-- (Signature/Header), pkg/plugin/implementation/signer/signer.go (Signature/Signer) and
-- pkg/plugin/implementation/signvalidator/signvalidator.go (Signature/Validator). base64, BLAKE2b and
-- ed25519 are arguments (Signature/Crypto), with their documented laws as the hypothesis IsCrypto.
-- Times are nanoseconds since 1970; the int64 sum in package time wraps as it does in Go.
--
-- Handler: core/module/handler. Handler/Steps has the steps of step.go, Handler/ResponseSteps those of
-- responsestep.go, Handler/Responses the bodies and statuses of answers, Handler/Serving ServeHTTP,
-- route and proxy of stdHandler.go, Handler/Configured its initSteps with the constructors of the
-- steps, Handler/Instrumented the wrappers of step_instrumentor.go. A step is a function from the step
-- context to the changed context and an error or none; what a request leads to is a list of events
-- (published, forwarded, answered, or panicked where a panic ends the request without an answer).
-- Handler/Running refines the loop over the steps to relations that do not mention it. The plugins
-- are records of functions (Handler/Interfaces). The step validateSign and the response steps share
-- the header of the answer with their context, as in Go.
--
-- PayloadStore: pkg/plugin/implementation/payloadstore/payloadstore.go. PayloadStore/Entries has keys,
-- entries and their encoding, PayloadStore/Store the operations, over a cache whose state goes from call
-- to call. The cache, JSON, gzip and base64 are arguments with laws (IsCache, IsEncoding): the cache
-- neither expires nor evicts between two calls, and JSON keeps texts that are valid UTF-8.
--
-- Crawler: pkg/plugin/implementation/catalogcrawler. The tables of internal/store are lists of rows:
-- Crawler/Rows has the rows and the updates of single rows, Crawler/Queue the statements of queue.go,
-- Crawler/Cursors those of cursor.go and indexstate.go. Each statement is atomic, as in the database,
-- and reads its own clock; a sweep of the parked rows is two of them, and others may run between.
-- Crawler/Steps runs them in any order. Crawler/Batch has batch.go of internal/sink over a codec with
-- laws (IsBatchCodec, HasSizes), Crawler/Discovery and Crawler/Settings the discovery of indexes and
-- the readers of settings in catalogcrawler.go,
-- Crawler/Tick and Crawler/Scheduler the tick and the lifecycle of scheduler.go. What catalog-core does
-- with an item (SyncNext) is an argument.
--
-- Texts are lists of bytes, numbers are the native naturals; int64 values are integers with the
-- bounds of int64 where the code parses or adds them. Recursion is structural but in three
-- places, which run on fuel: the printing of decimals, with one more than the number, which
-- Base/Numbers/Laws shows to be enough by reading the number back; the loop of batch_catalog, with a
-- round per resource; and sync_tick, whose fuel is an argument.
--
-- Not modelled: spans, metrics and logs; the loading of plugins by name (initPlugins); some texts of
-- errors are shortened where they print a quoted value or the text of a parser. A Go panic, such as
-- that of ed25519.Verify on a key of the wrong length, is an error (panic) that a caller may wrap as any
-- other, but that ends the request without an answer (is_panic). The
-- signer, the stores and the publisher are taken not to panic where their errors are passed over. A
-- header has one value to a name. What a step makes of the request it makes in place, so that its
-- wrapper shares it. Of the catalog crawler the reports
-- (ListAbandoned, Status), the push over HTTP and the HTTP handlers, of the payload store ParseConfig,
-- and the other plugins (schema version mediator, policy checker, registries, key managers and more)
-- are not modelled.
pub mod Base
pub mod Model
pub mod Router
pub mod Signature
pub mod Handler
pub mod PayloadStore
pub mod Crawler
