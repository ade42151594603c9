-- ===== src/Lib.antt =====
-- A model of aptly-gui, a web front end for the Debian repository manager aptly.
--
-- The program keeps mirror sets (suites times components, one aptly mirror for each), takes snapshot
-- sets of them and publishes these. A page of the web application decides whether a request may be made,
-- changes a row or enqueues a job; the runner takes the jobs one at a time and works through aptly's
-- REST API, with a step for each thing it does and an audit entry for how the job ended.
--
-- Which file models which part:
--   Prelude, Text, Dict, Json   numbers, tests and lists; Python's str (a list of code points), dict and
--                               decoded JSON, as far as the program uses them
--   Exec                        a method: a state, and a value, an exception or `stuck` (out of fuel);
--                               Exec/Triple has the rules for total correctness, Exec/Ensures for
--                               partial correctness
--   Aptly/Fields, Aptly/Models, Aptly/Errors
--                               src/aptly_gui/aptly/models.py and errors.py: parsers and payloads, advice
--   Aptly/Client                src/aptly_gui/aptly/client.py: AptlyClient._request is `send`, each method
--                               has the name of the source and is one `send` and one parser
--   Db/Models, Db/Progress      src/aptly_gui/db/models.py: the rows and the properties of one row
--   Db/Migrate, Db/Upgrade      detect_revision and _prepare_and_upgrade of src/aptly_gui/db/migrate.py
--   Db/Schema, Db/Scripts       the operations of alembic; src/aptly_gui/migrations/versions
--   Db/Downgrade                the downgrades of the scripts
--   Services                    src/aptly_gui/services/space.py, naming.py, verify.py, adoption.py and
--                               presets.py
--   Jobs/Plan, Jobs/Checks      the pure parts of src/aptly_gui/services/jobs.py: the order of the
--                               suites, the planned number of steps, the problems of the Verify step
--   Jobs/State                  the session (`live`), what is committed (`durable`), the runner's fields,
--                               _add_step, _finish_step and _fail_running_steps
--   Jobs/Await                  _await_task and _guard_disk
--   Jobs/Work, Update, Switch   _create, _discard and _remove; _update; _switch
--   Jobs/Run                    _recover_orphans, enqueue, _run_forever (one round), _run_job
--   Jobs/Reconcile              reconcile
--   Jobs/Queue                  start and the rounds of _run_forever, between calls of enqueue
--   the modules named Frame     what a method leaves alone, by Jobs/Steps/Frame
--   Auth/Policy, Auth/Identity  src/aptly_gui/auth/policy.py; the decisions of session.py, oidc.py and
--                               passwords.py
--   Auth/Oidc                   OidcClient of src/aptly_gui/auth/oidc.py
--   Web/Guard                   _dispatch, _session_user, _check_csrf, _safe_next of
--                               src/aptly_gui/web/app.py
--   Web/Session                 session.py, and `guard`, from the cookie of a request to its decision
--   Web/Users, Web/SignIn       users_role, users_active, login_submit, _reconcile_admin
--   Web/Provided, Web/Setup     oidc_start and oidc_callback; setup_submit, the tokens of `guard`, _sign_in
--   Web/Forms, Web/Sets         the form of a mirror set, and the pages that store, adopt and delete sets
--                               or start their jobs
--   Web/Settings                settings_save, _stored_language, _resolve_secret_key
--   Web/Lifespan                lifespan of create_app, from the tables of an upgraded database
--   Web/Views, Web/Format       what the pages that only show compute, and the templates' filters
--   Web/State, Web/Deletions    src/aptly_gui/web/state.py; the pages of app.py that start a deletion
--   Config                      src/aptly_gui/config.py and OidcConfig.from_env
--   Tests                       runs on concrete data, and the theorems applied to it
--
-- What is outside the program is the record `Outside` of Aptly/Client: a state, the reply to every
-- request, the clock, and what a sleep does. Nothing is assumed of it but, where a job must end,
-- `Patience` of Jobs/Await/Patience: the number of polls that will still find a task unfinished is below
-- the fuel and falls from one poll to the next. The loop of _await_task has no bound in
-- the source; it takes fuel here, and the theorems on jobs show that with `Patience` the fuel is
-- enough, for every job. The wait of wait_for_task ends by its timeout, with no assumption on aptly.
--
-- Numbers are natural numbers, but for the settings of Config: the program's are Python integers. A
-- negative number in a reply of aptly is outside the model, and on the others `max(0, a - b)` is the
-- truncated difference. Times are seconds with civil fields.
--
-- The provider of a sign-in is the record `Provider` of Auth/Oidc, with the hash of PKCE and the encoding
-- of a query.
--
-- itsdangerous is the record `Signer` of Web/Session; `Documented` there says that what was signed is
-- read back from then on to the greatest age. alembic and the inspector of a database are the record
-- `Alembic` of Db/Schema; `Documented` there is what they document of a stamp, an operation and an
-- upgrade along the chain of the scripts.
--
-- Not modelled: templates and translation; migrations/env.py and the rows that a migration keeps; the
-- HTTP, cookie, hashing and database libraries; float(); the rounding of sizes; the cancellation of a job
-- when the program stops, and what web handlers write or enqueue while a job runs: a step of Jobs/Queue
-- is a whole job, or what happens between two jobs.
pub mod Prelude
pub mod Text
pub mod Dict
pub mod Json
pub mod Exec
pub mod Aptly
pub mod Db
pub mod Services
pub mod Jobs
pub mod Auth
pub mod Web
pub mod Config
pub mod Tests
