-- ===== src/Lib.antt =====
-- The verification library of seapath-webui, a web service on a SEAPATH hypervisor that keeps the
-- machine's inventory in git, runs Ansible playbooks over SSH and shows how they end.
--
-- The parts and how they interact. A request passes the CSRF middleware and a guard
-- (app/core/security.py), which resolve the session cookie (app/core/sessions.py) to a user and a role
-- (app/core/auth.py). The inventory service (app/inventory) validates what an operator edits. The run
-- service (app/runs/service.py) asks the inventory and the trust services for the preconditions of a
-- playbook of the catalogue, takes the run lock and writes the run's files (app/runs/store.py), and a
-- thread executes the run: it folds Ansible's events into the progress (app/runs/progress.py), saves
-- the record, and closes it. The trust service (app/trust) puts the service's key into the
-- authorized_keys of the ansible account, a file that it shares with the site.
--
-- Which file models which part:
--   Base             Python's built-in operations: dictionaries in insertion order, texts as code
--                    points, int and its decimal text, sorted, values of YAML and JSON
--   Core/Errors      app/core/errors.py: ApiError, the envelope, the handlers
--   Core/Settings    app/core/settings.py: the settings and the files they lead to
--   Core/Auth        app/core/auth.py: Role, role_for, _is_member, authenticate
--   Core/Sessions    app/core/sessions.py: Session, SessionStore (create, get, delete as drop, _purge,
--                    sign, unsign, resolve)
--   Core/Security    app/core/security.py: current_session, require_user, require_role, the
--                    middleware's dispatch, the cookies
--   Api/Endpoint     app/core/security.py: what Depends(require_role(...)) puts in front of a handler
--   Api/Auth         app/api/v1/auth.py: login, logout, me
--   Api/Inventory    app/api/v1/inventory.py: replace, patch_host (Api/Inventory/Patch has model_copy's
--                    update), revert as revert_commit, the readers as get_…, _save as save_candidate
--   Api/Runs         app/api/v1/runs.py: launch as launch_run, the readers as get_…, cancel as
--                    cancel_run, events as event_stream
--   Core/Bootstrap   app/core/bootstrap.py: node_addresses, check_account_files, run_startup_tasks
--   Core/Tls         app/core/tls.py: _subject_alt_names, ensure_tls_material, ensure_session_secret
--   Hosts/CpuList    app/hosts/local.py: parse_cpu_list; app/inventory/discovery.py: _as_cpu_list
--   Hosts/Fake       app/hosts/fake.py: the readings of FakeHostReader; Inventory/Discovery/Invented
--                    has the inventory that they lead to
--   Hosts/Tree       app/hosts/local.py: the file system that is read, _read_text, _read_int and the like
--   Hosts/Busy, Hosts/Cpu
--                    app/hosts/local.py: _cpu_busy_percent; cpu, _cpu_model, _kernel_parameter
--   Hosts/Route, Hosts/Network
--                    app/hosts/local.py: _default_route, _hex_to_ipv4; network, _interface_addresses,
--                    _interface_kind
--   Hosts/Disks, Hosts/Identity
--                    app/hosts/local.py: disks, _by_path_index, ptp_clocks; node_identity, read_hostname
--   Inventory/Grub   app/inventory/grub.py: hash_password, verify
--   Inventory/Model  app/inventory/model.py: Mode, Role, NodeConfig, Inventory
--   Inventory/Address, Inventory/HostName, Inventory/Validation
--                    app/inventory/validation.py: each rule of validate as a function check_…; Address
--                    writes out what ipaddress does
--   Inventory/Renderer, Inventory/Parser
--                    the files of those names in app/inventory; a document is a value of YAML
--   Inventory/Repository
--                    app/inventory/repository.py: initialise, head, read, history, commit,
--                    revert
--   Inventory/Service
--                    app/inventory/service.py: state, save, ensure_seed, _message_for
--   Inventory/Discovery
--                    app/inventory/discovery.py: the proposal of discover, _propose_isolation,
--                    seed_inventory; all of discover in Inventory/Discovery/Candidates
--   Trust/Relations, Trust/Service
--                    app/trust/service.py: TrustRelation; ensure_self_trust, relations, revoke
--   Trust/Keys       app/trust/keys.py: ensure_key_pair
--   Trust/KnownHosts app/trust/known_hosts.py: read_local_host_keys, render, ensure_local
--   Trust/AuthorizedKeys
--                    app/trust/authorized_keys.py: install, remove, installed over the file's text
--   Api/Trust, Api/Node
--                    app/api/v1/trust.py: relations as get_relations, revoke as revoke_relation;
--                    app/services/node.py: summary
--   Runs/Fake        app/runs/fake.py: the scripts and FakeRunAdapter.execute as execute_fake
--   Runs/Models, Runs/Progress, Runs/Catalogue, Runs/Store, Runs/Adapter
--                    the files of those names in app/runs
--   Runs/Availability, Runs/Variables, Runs/Service, Runs/Execution
--                    app/runs/service.py: _unmet_preconditions, _blocking, playbooks;
--                    _accepted_variables; launch, cancel; _execute, _final_state, _final_message
--   Ui               app/ui/routes.py: the handlers of the four pages as visit
--   Main             app/main.py: create_app, _default_run_adapter
--   Tests            the theorems at concrete inputs
--
-- State and effects. An object with state is a record that its operations take and return. The clock,
-- random tokens, the HMAC, PAM, the account databases, ansible-runner and the disk are arguments: an
-- operation is told what they answer. A file that the code replaces by writing beside it and renaming
-- is replaced at once. A launch is told at which of its writes the disk fails, if at one (Fault), and a
-- start which of its files can be written. Validating may raise, as ip_network does, and a file of
-- events holds whole, torn and unended lines. Instants are counted in ticks. An error that the code
-- raises for the API is a result. What runs in threads is a relation of single steps in any order
-- (Runs/Execution/Exclusion).
--
-- Bounds and fuel. Digits are printed with fuel above the number, which is enough since each step
-- divides by ten. Python's integers have no bound, so no width is modelled. The run list of a restart
-- is cut at 1000 records by the code, and the theorem on it says so.
--
-- Loading and dumping YAML and what git answers are arguments too. The inventory file and git's history
-- are one record; a history is the list of its commits, newest first.
--
-- Not modelled: diffs and exports of the inventory, which are git's and tar's output; the endpoints that
-- only pass a call on; the building of the FastAPI application, the start of uvicorn, logging and audit
-- messages; and the texts of templates. The making of keys and certificates, PBKDF2, ansible-runner,
-- FastAPI, pydantic and PAM are libraries. A text that is compared in constant time is compared by
-- equality, also where a character outside ASCII makes hmac.compare_digest raise. The last save of a
-- run, in the finally block of _execute, is taken to succeed: a disk that fails there is not modelled.
-- YAML's floats, dates and keys that are no text are left out of the values.
pub mod Base
pub mod Core
pub mod Api
pub mod Hosts
pub mod Inventory
pub mod Trust
pub mod Runs
pub mod Ui
pub mod Main
pub mod Tests
