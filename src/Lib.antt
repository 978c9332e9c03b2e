-- ===== src/Lib.antt =====
-- Verification library of bond-mcps: the OAuth 2.1 authorization server of the MCP
-- servers, the token store and the verification of tokens that they share, and of the Microsoft one the
-- mail policy, uploads, listings and edits of workbooks.
--
-- The server hands out authorization codes after a sign-in at an upstream IdP, and turns them into
-- signed access tokens and rotating refresh tokens. /oauth/authorize looks a client up
-- (auth/auth/auth_server/clients.py), checks its redirect URI and stores a pending request;
-- /oauth/upstream/callback claims it and issues a code; /oauth/token redeems the code or rotates a
-- refresh token (auth/auth/auth_server/codes.py). The rows live in a SQL database
-- (auth/auth/db/models.py); secrets at rest are encrypted (auth/auth/encryption.py).
--
-- State is the record Db of the tables, a table the partial map from primary key to row. A method that
-- reads and writes it is an Exec, a function from Db to a result and the Db after it; `with_session` is
-- get_session of auth/auth/db/session.py, one transaction that an exception rolls back. Exceptions are
-- values. The clock, and all that is drawn at random, are arguments. An instant is a number of
-- microseconds.
--
--   Prelude           the names that all share; Text, UrlParse, Query and Int model what the sources use
--                     of Python's str, urllib.parse and int, on ASCII text
--   LastPart          what `after_last`, the end of `rpartition`, finds
--   Db                Tables, Rows (the models) and Session (transactions and exceptions)
--   Encryption        encrypt, decrypt and the key resolver of auth/auth/encryption.py; Laws
--   AuthServer        Secrets is auth/auth/oauth_utils.py. Codes and Refresh are the two halves of
--                     auth/auth/auth_server/codes.py, with Codes.Single, Codes.Lifecycle, Codes.Pending
--                     and Refresh.Rotation, Refresh.Grace, Refresh.Invariant, Refresh.Revocation for what
--                     is proved. Clients is clients.py, with Policy and Store. Tokens and Endpoints are
--                     endpoints.py, with Redirects, Flow, Refusal and SignIn. TokenExchange is
--                     token_exchange.py. Prune is the command prune-oauth of auth/auth/cli.py.
--                     Upstream is upstream.py and Cognito is cognito_lookup.py, both in auth/auth/auth_server
--   Tickets           auth/auth/connect_tickets.py
--   TokenStore        the providers' tokens: the repository auth/auth/db/repository.py; Refresh and Identity
--                     are auth/auth/token_store.py; Msal the encrypted MSAL caches. Laws, Readback,
--                     MapRefresh, Refinement and Msal.Laws relate them to plain maps; Merging is about
--                     merged dicts
--   JwtIdentity       auth/auth/jwt_identity.py; Laws
--   JsonValue         JSON values, as Python reads them
--   Graph             mcps/microsoft/ms_graph/graph_client.py as its callers see it; Upload is the upload part
--                     of files.py, Pages is pagination.py, Delta the delta feed of mail.py. Workbook is
--                     workbook.py, with Columns, Edits, Used and Apply for workbook_edit.py and Valid, Laws,
--                     SessionId and Session for what is proved
--   MailPolicy        mcps/microsoft/ms_graph/mail_policy.py; Laws
--   Tests             tests, and the theorems at concrete inputs
--
-- Parameters: `Crypto` is what the sources call of hashlib, cryptography and base64, with the laws
-- IsAead, IsBound and IsUtf8 where a theorem uses them; `Server` holds the environment, PyJWT, the
-- upstream IdP and the Cognito lookup as the endpoints call them; `is_bracketed` decides an IP address in
-- brackets, as the module ipaddress does. No theorem asks that the digest be injective: where two texts
-- must not share a hash, the theorem says so.
-- `Service` is Microsoft Graph: the answer to a request, in the light of those before it; a function that
-- sends requests is a Client, which keeps the list of what was sent. `Library` is what jwt_identity.py
-- calls of PyJWT and FastMCP. Fuel: `show` has one more than its number, the letters of a column have its
-- number, and the fragments of an upload the number of its bytes, which the theorems on them show to be
-- enough; the loops over pages have the limit of the source.
--
-- Not modelled: HTTP, HTML, logging, the engine and migrations of the database, the connect routes, and the
-- tool wrappers of mcps/, which send a request and format its answer. Two statements of one
-- transaction are never interleaved with another's.
pub mod Prelude
pub mod LastPart
pub mod Db
pub mod Encryption
pub mod AuthServer
pub mod Tickets
pub mod Graph
pub mod JsonValue
pub mod JwtIdentity
pub mod MailPolicy
pub mod TokenStore
pub mod Tests
