-- ===== src/Lib.antt =====
-- The core of a fleet of robots, and the kit with which an agent speaks to it over MQTT.
--
-- Prelude: strings as lists of bytes, lists, results, and Go maps as lists of entries.
-- Sdk/Topic models pkg/agentsdk/topic.go: the topics of an agent and the parsers of core. RoundTrip is
--   about the topics that an agent builds, Sound about what the parsers accept.
-- Sdk/TaskManager models pkg/agentsdk/task_manager.go: `listen_new_task` is listenNewTask up to the
--   start of its goroutine, which is a value of `Job`, and `finish` is the body of the goroutine, so
--   that a run is a list of deliveries and ends of jobs in any order. Sdk/LinkedList models the list of
--   container/list: an element is a pointer, and the map of the manager holds pointers.
-- Sdk/Stream models pkg/agentsdk/service/agent_task_manager.go: `handle_task` is HandleTask up to the
--   start of its goroutine, `started_ack` and `finish_task` are the two ends of the goroutine, and
--   Outcomes has a list of them with the aborts for an interleaving.
-- Sdk/Agent models pkg/agentsdk/agent.go and event.go: each operation gives the agent after it and the
--   calls of its client in order. Lifecycle has runs of an agent, Presence what core sees of it.
-- Sdk/Telemetry models pkg/agentsdk/telemetry.go and telemetry_schema.go, Announced the verdict of core
--   on the schema that an agent announces.
-- Sdk/PoseStream models pkg/agentsdk/service/stream_pose.go, Recorded what core has of its poses.
-- Sdk/Slamtec models pkg/agentsdk/slamtec: the state that slamtec_robot.go keeps of a robot here, the
--   actions and the loops that wait for them in Actions, and the skills in Skills, with the
--   handlers of pkg/agentsdk/task_handler. What a `select` takes is a list of ticks. Waiting is about
--   the loops, Lift about EnterLift, Brake about the subscribers of the brake, and Events models the
--   summary of the robot's events.
-- Core/Task and Core/Repo model cmd/core/model/task.go and cmd/core/repository/task_repo_memory.go. The
--   repository stores the task that it is given; callers that change a task which they found change the
--   stored one, which the model writes as a save.
-- Core/Dispatcher models cmd/core/service/task_dispatcher.go: `send_task` is SendTask with its guard, its
--   save and its publication; the client is a function that says whether a publication went well.
-- Core/Auth and Core/Agents model auth_service.go and agent_registry.go of cmd/core/service. Random
--   bytes and the clock are arguments.
-- Core/Missions models mission_registry.go and mission_task_manager.go there: `on_create_task` goes to
--   the dispatcher, `on_task_updated` to the repository and to the stream of the mission.
-- Core/Poses models cmd/core/service/pose_listener.go.
-- Core/Config models cmd/core/pbconfig.go: the loaders, and in Watch the reloads of watchConfig. Shows
--   says what each reload sets, Loaders what a loader reads of the rows, Synced has series of changes
--   and reloads, and Contracts goes from a row of the database to the contract of an agent.
-- Core/Ui models the numbers and lists of cmd/core/ui.go, Recent is about the tasks that it lists.
-- Core/ControlPlane models cmd/core/task_mqtt.go: messages of agents become updates of tasks and of
--   their presence.
-- Core/Api models the handlers of cmd/core/controller and cmd/core/grpc over these services: Tasks,
--   Agents and Missions, AgentStream the gRPC service of agents, Operators the check of pbauth.go,
--   AgentList agent_connect.go, Telemetry telemetry_connect.go and Live telemetry_live.go.
-- Telemetry models cmd/core/telemetry: Violation the signatures of validate/violation.go, Throttle
--   events/throttle.go, Store store/store.go, Query query/query.go, Live live/live.go, and Mapping
--   mapping/mapping.go over the JSON values of Json. Registry models registry/registry.go with
--   HashSchema of pkg/agentsdk/telemetry_schema.go, Validate validate/validate.go, and Pipeline
--   telemetry.go with the queue of ingest/ingest.go and the settings of persistcfg/persistcfg.go: a
--   message goes through the validation to the throttle, the store and the live view. AgentEvents models events/pbsink.go and the reader of its rows.
--
-- Journey has the way of a task through Core/Dispatcher, Sdk/TaskManager and Core/ControlPlane, with the
--   JSON texts between them as `Codecs`: Updates is about the one active task of an agent, Outcome about
--   a task from its dispatch to its outcome, and Mission about what a mission hears of a task that it
--   asked for. Journey/Registration has the way of an agent from its key to its calls: Sdk/Registration, which
--   models registration.go and server/server.go of pkg/agentsdk, with Core/Api/Agents and Core/Api/AgentStream.
--
-- A mutex makes each operation of the source a step, and the model has one function for each step; only a
-- reload of the configuration, which no mutex covers, is two steps, its reading and its setting. A
-- list of events stands for an interleaving. The loops of the source run over lists, but for three,
-- which have fuel: `evict_from` drops one element in each round and gets the length of the list,
-- `write_from` gets the number of attempts, and a client's `pages` gets one more than it reads rows.
-- The waiting loops of
-- Sdk/Slamtec have no result on a list of ticks that ends before the deadline. Numbers do not wrap, but
-- for the difference of two times in Telemetry/Mapping, which is an int64, the counts of a status, which
-- are int32, and the sequence number of an agent's telemetry, which is a uint64.
--
-- Not modelled: the network, the database and its SQL, JSON and protobuf texts, and the HTTP requests to
-- a robot, which are parameters; the wiring in main.go and pocketbase.go, the file that config.go
-- reads, generated code, migrations, command line tools, and the markup of the page; of
-- the robot's driver the texts of failures and the skills that only log.
pub mod Prelude
pub mod Sdk
pub mod Core
pub mod Telemetry
pub mod Journey
