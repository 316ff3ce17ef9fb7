-- ===== src/Lib.antt =====
-- The console is a Go server (auth, cmd, pkg, server) that serves a React application (frontend) and
-- passes its requests on to the cluster. This library models the logic of the application: the code
-- under frontend/public that keeps state, decides, parses or prints, and whose results the views show.
--
-- The parts, and the files that model them:
-- * WebSockets, frontend/public/module/ws-factory.js: Ws. An object (Ws/Defs, `Ws`) buffers the messages
--   of a watch, delivers them at an interval, and replaces its socket after a failure, later each time.
--   `trigger_event` is _triggerEvent, `invoke_handlers` _invokeHandlers, `reconnect` and `attempt`
--   _reconnect, `connect` _connect, and `onopen`, `onclose`, `onerror` and `onmessage` are the callbacks
--   of a socket. Ws/Run has all that can happen to an object as events, and `step` and `run` on them.
--   Sockets and timeouts are numbers; a call of a handler is recorded with its argument, and is not run.
-- * Command lines, frontend/public/module/k8s/command.js: Command. `from_args` prints the arguments of a
--   container, and `to_args` reads a line.
-- * Label selectors, frontend/public/module/k8s/selector-requirement.js and selector.js there: Selector.
--   Selector/Scan has the pieces of the regular expressions, Selector/Requirement reads and prints one
--   requirement, and Selector/Selectors whole selectors, as lists of entries for the objects of labels.
-- * Addresses and requests, frontend/public/module/k8s/resource.js: K8s/Resource. It prints selectors by
--   the part above, and its watches are the objects of the first part.
-- * Queries, frontend/public/components/utils/k8s-watcher.js: K8s/Queries, what a watch is stored under.
-- * The store of resources, frontend/public/module/k8s/k8s-reducers.ts: Store. `load_list` is loadList,
--   `update_list` updateList, and `reduce` the reducer, with the entries of its state as a function from
--   ids (Store/Reducer). The maps of the immutable library are the interface Store/Maps. An object has
--   the fields that the reducer reads, and one text for all others, which it only compares. Store/Loading,
--   Store/Events and Store/Entries compare the lists with what happens to each name.
-- * Watches, frontend/public/module/k8s/k8s-actions.ts: Watch. A cell (Watch/Cell) has the fields of one
--   id in REF_COUNTS, WS and POLLs, and the sockets, timers and requests that are under way; nothing of
--   one id is read for another. Watch/Steps has all that can happen to it as events, each step with the
--   actions that it dispatches to the store above. The sockets are the objects of the first part, of which
--   a destroyed one still reports a replaced socket's closing, which is an event of its own.
-- * Logs, frontend/public/components/utils/line-buffer.ts, resource-log.jsx and log-window.jsx there: Log.
--   Log/Buffer cuts a text into lines as the pattern does, Log/Stream has the states of a stream, its
--   callbacks and controls as events, and what the window shows after each. Base64.decode is a parameter.
-- * Pods, frontend/public/module/k8s/pods.ts: Pods, with phases and readiness in Pods/Phase and the
--   mounts of containers in Pods/Mounts.
-- * Times, frontend/public/components/utils/datetime.ts and frontend/public/module/k8s/builds.ts: Time,
--   with milliseconds as natural numbers and exact quotients.
-- * References of kinds, frontend/public/module/k8s/k8s.ts: K8s/References.
-- * Rules of roles, frontend/public/components/RBAC/edit-rule.jsx: Rbac. `load_rule` is the part of
--   getResource that opens a rule, and `to_rule` the part of save that makes one.
-- * Bindings of roles, frontend/public/components/RBAC/bindings.jsx: Rbac/Bindings for the rows of the list,
--   Rbac/BindingForm for the form, Rbac/Subjects and Rbac/Requests for what they show and save.
-- * Rows, frontend/public/components/factory/list.tsx: Rows. A filter of listFilters is a constructor with
--   its value, and what the filters read of an object is the interface `Reads`.
--   The boxes that select a filter's values, frontend/public/components/row-filter.jsx, are Rows/Boxes.
-- * The stream of events, frontend/public/components/events.jsx: Events, with the stored messages in maps as
--   those of the store, and its callbacks, control and filters as steps.
-- * Variables, frontend/public/components/environment.jsx: Environment, as the pairs that the editors of
--   pairs work on and as patches.
-- * Hooks and probes, frontend/public/module/k8s/probe.js: K8s/Probe.
-- * Jobs, nodes and containers, frontend/public/module/k8s/job.js, node.js and docker.js there:
--   K8s/Workloads.
-- * Credentials, frontend/public/co-fetch.js: Http/Fetch, and the session that it can end,
--   frontend/public/module/auth.js: Http/Auth. The order in which a call's response and its timeout
--   arrive is a list of events. Headers and the storage are functions from names.
-- * The frame, frontend/public/ui/ui-actions.js, frontend/public/ui/ui-reducers.js and
--   frontend/public/components/utils/link.jsx: Ui. A location is written by `format_namespace_route` and
--   read by `get_namespace`, which the reducer calls for each new location.
-- * Software updates, frontend/public/components/utils/operator-states.jsx and
--   container-linux-update-operator.js there: Operators.
-- * Values with units, frontend/public/components/utils/units.js: Units, over an interface of the
--   numbers of the language (Units/Numbers), so that nothing rests on how they round.
-- * Edited pairs, frontend/public/components/utils/name-value-editor.jsx: Editor.
--
-- Base has what the parts share: texts as lists of UTF-16 code units, lists counted by the native
-- numbers, and decimal texts. Lodash is the interface of the lodash library, whose code is not in the
-- repository. JSON.parse, JSON.stringify, encodeURIComponent, atob and _.trim are parameters of the
-- definitions that use them.
--
-- Loops over lists and texts are structural recursion, so no function needs a bound. The one recursion
-- on fuel prints a number, whose value is enough fuel (Base/Decimal). Times, delays and counts are natural
-- numbers, which stay below 2 ^ 53 in the code.
--
-- Not modelled: the views, the Go server and its proxy, the vendored libraries, the styles and the tests;
-- the registry of models and its discovery (types.resources, getResources and watchAPIServices), whose
-- models are data of the cluster; the actions that only call the browser; and what an action on a list
-- makes of an entry whose data is an object (Store/Reducer says which: their result is `none` there).
pub mod Base
pub mod Ws
pub mod Command
pub mod Selector
pub mod Lodash
pub mod Operators
pub mod Ui
pub mod K8s
pub mod Http
pub mod Editor
pub mod Units
pub mod Store
pub mod Watch
pub mod Log
pub mod Pods
pub mod Time
pub mod Rbac
pub mod Rows
pub mod Events
pub mod Environment
