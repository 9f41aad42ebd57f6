-- ===== src/Lib.antt =====
-- Corvus Node: a host process that runs an agent in a virtual machine and decides what its messages
-- may do. The guest's engines send JSON lines; the Node checks the number and MAC of each line, logs
-- it in a hash-chained journal, asks the policy where the code does, runs the file tools on an allowed
-- folder, and answers.
--
-- Parts, with the files of src/corvus_node/ that they model:
--   Prelude            text, list and number helpers that the parts share
--   Json               JSON values as the code reads them; Json/Text is `str(value)`, Json/Dumps is
--                      `json.dumps(..., sort_keys=True, separators=(",", ":"))`
--   Identity           identity/principal.py
--   Protocol           protocol/models.py; Protocol/Validator is runtime/validator.py, Protocol/Mac
--                      is protocol/mac.py
--   Tools/Paths        tools/paths.py, with the functions of posixpath that it calls; Tools/Files is
--                      tools/files.py
--   Policy             policy/engine.py
--   Memory             memory/service.py
--   Audit              audit/store.py
--   Workspace          node/workspace.py, and the limits that tools/files.py declares
--   Session            node/session.py: the state and what it sends; Session/Handlers has a function for
--                      each branch of `serve`, Session/Serve its loop
--   Update             node/update.py
--   Settings           node/settings.py
--   Control            node/control.py: the frames of the operator's socket
--   Daemon             node/daemon.py: the state that the connections share, and one connection's steps
--   Stub               llm/stub.py
--   Runtime            runtime/wire.py; Runtime/Engines is runtime/engines.py and tools/echo.py,
--                      Runtime/Turn is runtime/turn.py
--   Cli                cli.py; Cli/Client is the client of node/control.py and the calls of
--                      node/daemon.py, Cli/Consent the question to the operator and what the host is
--                      told, Cli/Stop, Cli/Update, Cli/Start, Cli/Settings and Cli/Show the
--                      commands, the last with node/info.py; Cli/Header, Cli/Screen and
--                      Cli/Chat are node/chatview.py and the command `chat`, Cli/Main the dispatch
--   Program            programs that pass a state on and may raise, as Runtime, Cli and Launcher are
--   Launcher           vm/launcher.py; Launcher/PidFile is its `read_pid_file`, Launcher/Checksums is
--                      vm/checksums.py, Launcher/Assets the checks of the assets, Launcher/Jail the
--                      jail, Launcher/Watch what decides a turn, Launcher/Turn `launch_turn` and its
--                      cleanup
--   Tests              concrete inputs and runs
--
-- How they interact: a session holds a hop (Protocol/Mac), a policy, a memory and an audit store, and
-- gives them every message in the order of `serve`: count, decode, verify, log, dispatch, reply, and
-- what follows a handshake or an agent response.
--
-- The daemon holds the rules of the running guest (from Settings by way of a start frame) and two
-- queues to its session; a connection is a mode and the daemon's state is passed through its steps, so
-- that any interleaving of connections is a sequence of steps. A boot is one step, and so is the stop
-- of a guest, in which the code awaits the guest's task.
--
-- The guest's runtime is the other end of the session's stream: its hop is a Protocol/Mac hop, its check
-- is Protocol/Validator, and what it sends is what the Node's hop and policy are given. The commands of
-- the operator are clients of the daemon: they send frames of Control and read its replies.
--
-- An action of the runtime takes the state of the wire and gives a result and the next state, also when
-- it raises. A command is a program over its trace, the events so far with the last first; the host
-- answers each question by that trace, so it may answer differently each time. A launch is a program
-- over its scene: the trace, and the variables that the cleanup reads. What happens while its turn is
-- awaited is a list, in the order in which it happens.
--
-- How the code is modelled: a method that changes an object is a function from its state to the next.
-- A session's state is a record with the fields of `NodeSession`; what it writes is the list `sent`.
-- The loop is structural recursion on what the stream gives (a line, bytes that are no UTF-8, a line over
-- the limit of the reader, a timeout), so it needs no fuel. The printing of a number n has the fuel n + 1. The loop of the guest's run has as
-- fuel the lines that will come and one more, since every turn reads a line. Waiting for the Node looks
-- every 50 ms for 15 s, and has fuel for 301 looks. A chat is structural recursion on the lines that are
-- typed and on the replies that come. After its kill, Firecracker is looked for 50 times, as in the code.
-- UUIDs and times are texts, drawn from a counter. A queue of prompts is the list of the prompts that
-- will come. The lines of the journal are the JSON objects that they hold. A float is the text that JSON has for it; `str` of a text shows characters
-- beyond ASCII as they are, and a digit of a version or of a pid is an ASCII digit. A set of names is a
-- list.
--
-- Parameters: SHA-256 and HMAC (`Digests`), the file system (`FileSystem`), and, in `SessionEnv`, the
-- identifiers, the clock, the language model and the decoder of a line; the answers of GitHub and git, the
-- contents of the launch file, `json.loads`, and the regular expressions of the scripted model; in
-- `GuestEnv`, the readings of numbers and of hexadecimal text; in `Host`, what the operator's machine
-- answers. The launches of a development machine are parameters of Cli/Start, and the help text, the
-- splash and the service are parameters of Cli/Main. `Machine` has what the launcher is told of files,
-- digests, processes and the guest's session; a file that holds the log of Firecracker can be read.
--
-- Not modelled: a reply of the Node that never comes, for which a command waits without a limit, other
-- connections while the daemon awaits the end of a guest, an OSError of `is_symlink` and the like for a
-- path that may not be looked up, sockets, processes and signals of the daemon, the parser of the
-- arguments, a second cancellation while a launch is cleaned up, the building of the guest's image, the
-- entry point of the guest and the graphical client.
pub mod Prelude
pub mod Program
pub mod Launcher
pub mod Json
pub mod Identity
pub mod Protocol
pub mod Tools
pub mod Policy
pub mod Memory
pub mod Audit
pub mod Workspace
pub mod Session
pub mod Update
pub mod Settings
pub mod Control
pub mod Daemon
pub mod Stub
pub mod Runtime
pub mod Cli
mod Tests
