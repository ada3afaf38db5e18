-- ===== src/Lib.antt =====
-- A model of the back end of src/, a NestJS application in hexagonal form, and what holds of it.
--
-- The program: requests reach the routes of a module (user, sample, tenant, ...) behind global
-- guards; a use case reads and writes through ports, which TypeORM repositories and the adapter
-- of the identity provider (SuperTokens) implement; exceptions end in one filter. Public forms
-- stand behind the anti-bot stack.
--
-- The files:
-- - Prelude: names passed on from the libraries, Boolean tests, lists over the native numbers,
--   integers.
-- - Common: src/common. JsMap is a JavaScript `Map` in its order of insertion, Json what
--   `JSON.parse` gives, Text the methods of strings, Patterns the regular expressions, Exec actions
--   on a state that may throw, where what was done before a throw stays done. Errors and
--   ExceptionFilter are src/common/exceptions, src/common/enums and
--   src/common/filters/global-exception.filter.ts; Pagination is pagination.util.ts and NanoId the
--   identifiers of slug.util.ts, of src/common/utils; Pipes is the three files of src/common/pipes,
--   with what the schemas use of zod; Password is src/common/validation/password.schema.ts;
--   Documents has validate-cpf.ts and validate-cnpj.ts, and S3Key s3-key.util.ts, of
--   src/common/utils.
-- - Access: src/common/middleware/tenant-context.middleware.ts and src/common/guards, in the order
--   of src/app.module.ts.
-- - AntiBot: src/anti-bot. TokenStore is in-memory-token-store.ts (`mark_used` is `markUsed`,
--   `prune` and `enforce_cap` its private steps), FormToken is form-token.service.ts, FormGuards
--   and ChallengeGuards are the six guards over an Exchange (request, response, store), Stack is
--   the decorator `@AntiBot`, Sanitizer is body-sanitizer.interceptor.ts, Config is
--   src/config/anti-bot.config.ts, Controller the two routes and FormTokenQuery form-token.dto.ts.
-- - AuditLog: src/common/interceptors/audit-log.interceptor.ts. `redact` is its redaction of a body,
--   Interceptor the log that it makes of a request and its answer (`intercept`), and
--   Repository audit-log.typeorm-repository.ts of src/audit-log.
-- - Database: what TypeORM does for the repositories, a parameter with its laws; Memory is an
--   instance. Isolation, Keyed, Members, ReadBack and Selection are the lemmas that the
--   repositories and their clients share.
-- - User: src/user. Port has the two ports with what the use cases rely on, Repository is
--   user.typeorm-repository.ts over a table, with its search for the user of a session, which reads
--   a join, in Active; UseCases the seven use cases, Controller the handlers of the routes, Schema
--   the schemas of the bodies and Routes the pipes in front of the handlers.
-- - Auth: src/auth. The two use cases of a forgotten password over the port of the identity
--   provider, Schema the bodies of their routes, Controller the routes behind the captcha, Reset
--   what a token changes. Adapter and Provider are supertokens-auth-provider.adapter.ts with what
--   SuperTokens promises of its calls.
-- - Realtime: src/realtime. The handshake of realtime.gateway.ts (`handle_connection`) behind the
--   origins of realtime-io.adapter.ts (`check_origin`), and the events of realtime.service.ts
--   (`emit`).
-- - Tenant: src/tenant, with the same parts as Sample; Unique is what the look-up of a document
--   gives.
-- - Storage: src/storage. The upload of storage.controller.ts with image-processing.service.ts, and
--   S3 is s3-storage.adapter.ts over the commands of S3's client; Confined and Accepted are what an
--   upload may write.
-- - Health: the indicators of src/health.
-- - Sample: src/sample. Port and Repository as in User, UseCases the six use cases, Controller the
--   routes, Schema sample.dto.ts; Queue is sample-queue.adapter.ts with its time limit and Processor
--   sample.processor.ts. Worker has the life of a job as a relation of its deliveries.
-- - TenantFeature: src/tenant-feature/domain/entities and in-memory-tenant-feature.cache.ts of
--   src/tenant-feature/infrastructure/cache (`fetch` is `get`, `store` is `set`); Service is
--   tenant-feature.service.ts of src/tenant-feature/application/services, with feature.guard.ts of
--   src/tenant-feature/infrastructure/http; UseCases has the use cases and the rest of the service,
--   Port and Repository what they ask of the database and tenant-feature.typeorm-repository.ts;
--   Controller the routes and Schema tenant-feature.dto.ts.
--
-- Not from this repository, so parameters: HMAC, base64url and JSON coding (TokenCodec), Nest's
-- GuardsConsumer and ParseUUIDPipe, the answer of Cloudflare, the challenge resolver, `Number`,
-- `toLowerCase`, `randomBytes`, zod's issues and its checks of an e-mail address and a UUID, `new
-- URL`, `decodeURIComponent`, TypeORM's tables, BullMQ's `add` and its deliveries,
-- supertokens-node, file-type, sharp, S3's client, `randomUUID`, socket.io's `join`, the identity
-- provider. Each has an instance that runs, in the modules of tests, in
-- AntiBot.FormToken.PlainCodec, Database.Memory, User.Active.Memory and TenantFeature.Memory.
--
-- The clock is an argument, in milliseconds from the epoch; where one request reads it twice
-- there are two arguments. Loops are structural; nothing runs on fuel but the client of
-- Common.Pagination.Walk, for whom one page more than there are entries is enough, and the loop of
-- Common.NanoId, which ends with the eighth byte that it accepts. Statements of SQL happen whole or not at all,
-- and requests are handled one after the other: races between requests are not modelled. Logging
-- is not modelled.
--
-- Numbers of a body are integers, so zod's `int` refuses none of them. Lengths of texts count code
-- units of UTF-16 in the schemas, and code points where the audit log cuts a text. SuperTokens' own
-- routes under /api/auth, which run before Nest's guards and pipes, are not part of the model.
--
-- Not modelled: of src/common, `slugify`, which rests on Unicode normalization; the guards of
-- src/app.module.ts that come from packages, of SuperTokens and of the throttler; the route of
-- src/audit-log, which answers a fixed page; the controller of src/health, src/logger, src/database, the modules and
-- the rest of src/config, which are wiring and I/O; the classes for Swagger.
pub mod Prelude
pub mod Common
pub mod Access
pub mod AntiBot
pub mod Database
pub mod User
pub mod AuditLog
pub mod Sample
pub mod Auth
pub mod Realtime
pub mod Health
pub mod Storage
pub mod Tenant
pub mod TenantFeature
