-- ===== src/Lib.antt =====
-- A verification library for the platform's backend: a Django application of apps/ (identity,
-- documents, system services) over the shared code of core/. Each operation is a function from the
-- state it meets to its result and the state it leaves; an exception is a value.
--
-- The parts and their files:
-- - Prelude: the names and lemmas that all parts share.
-- - Core/Cache: the cache that the source calls, an interface with its documented behaviour;
--   Core/Cache/Table runs it. Core/PyText and Core/PyPath: what is used of Python's texts and paths.
-- - Core/RateLimit: core/middleware/rate_limit.py. `is_rate_limited` counts requests of a key in the
--   cache and `call` is the middleware; a moment in seconds stands for each reading of the cache. The
--   cache may have no `ttl`, which raises when a request is over the limit.
-- - Core/Idempotency: core/middleware/idempotency.py. `call` is the middleware around any
--   application; requests follow each other, none runs between the steps of another. The
--   content of a response is UTF-8 text; other bytes and streams, whose decoding raises, are left out.
-- - IamAuth/Lockout, IamAuth/Login, IamAuth/IpFilter: apps/iam_auth/lockout.py, the views for login
--   and unlocking of apps/iam_auth/views.py with the receiver of the signal, and
--   apps/iam_auth/ip_filter.py. The login calls the lockout on the same cache. Whether a password is
--   right is what the inherited view answers, an argument.
-- - IamAuth/Policies, IamAuth/Sessions, IamAuth/Passwords: apps/iam_auth/serializers.py. Policies is
--   `LoginSerializer.validate` after the password check, with the IP filter and `get_tenant_setting`
--   of apps/tenants/utils.py; Sessions the limit on sessions that it ends with; Passwords the change
--   of a password, which clears the lockout. Core/Security is core/utils/security.py. The token
--   library, hashing and parsing are arguments; times are seconds, one clock value per request.
-- - IamOauth: apps/iam_oauth. Model holds the tables as lists of rows, newest first; Codes and
--   Refresh the functions of services.py and the revocation endpoint of views.py. SHA-256, the
--   drawn values, the moments and the decoding of a JWT are arguments. Grants holds what the
--   authorization endpoint and the grants for codes and client credentials of serializers.py accept:
--   the fields as they are sent, the clients that TenantManager of apps/tenants/managers.py shows to
--   the tenant of the token, and the checks. The grant for codes starts after its fields are read
--   and is for a request without a bearer token. URLs are checked by an argument.
-- - DmsIngestion: apps/dms_ingestion. Checks holds the validators, Processors the processors over an
--   interface for hashing, Pipeline the service and the task. A save writes only the columns that it
--   names, on the row with the key. The storage backend, which may fail to be made, and the imported
--   processors are arguments.
-- - DmsMetadata: apps/dms_metadata. Values and Validators hold `validate_type` and `validate_rules`,
--   Schemas the check of stored rules, Service the validation of a document's metadata; Types and
--   Rules describe what they decide without the code. Of an error only the label is kept; the parsers of formats and the decimals are arguments.
-- - SysPermissions: apps/sys_permissions. Catalog generates and merges the catalogs, Registry builds
--   the registry and the default roles, Checks validates, Access is `HasTenantPermission`, Roles the
--   seeding of apps/tenants/signals.py and the serializer of apps/iam_roles. A dict is a list of
--   entries in the order of insertion; `jsonschema` is an argument.
-- - SysEventbus: apps/sys_eventbus. Envelope, Bus (tables, registry, publishing), Polling and
--   Dispatch (the task with its retries). JSON and the handlers are arguments; a handler may leave
--   any state, so that other workers may act while it runs.
--
-- Recursion: the walk along `replaced_by` runs on fuel, one more than there are rows; with the rows
-- in the order of their creation a chain is shorter than that. The loop that hashes a file runs on as
-- much fuel as the file has bytes, and each round reads at least one. All else is structural.
--
-- Not modelled: the refresh grant's serializer and the making of JWTs, the other views, the
-- tenant scope of other tables than the clients, the catalog of settings, second factors, audit and documents, and what is only
-- configuration, storage or glue around Django. Database errors, and requests that run at the same
-- time, are left out, but for what a handler of the bus meets. Texts are ASCII where Python's rules
-- for letters and spaces matter.
pub mod Prelude
pub mod Core
pub mod IamAuth
pub mod IamOauth
pub mod DmsIngestion
pub mod DmsMetadata
pub mod SysEventbus
pub mod SysPermissions
