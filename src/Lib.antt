-- ===== src/Lib.antt =====
-- PolyTerm: a terminal window with SSH, serial, local shell and RDP sessions, in a workspace of Rust
-- crates under crates/.
--
-- The window (polyterm-ui) holds panes; each pane talks to a back end (polyterm-ssh, polyterm-serial,
-- polyterm-pty) over bounded channels that carry input, output, control messages and events
-- (polyterm-core). Sessions and host keys are kept by polyterm-store in JSON files.
--
-- Core/Session, Core/Forward, Core/Transport, Core/Prompt: the types of crates/polyterm-core/src/session.rs,
-- forward.rs, transport.rs and prompt.rs, with the source's variants. A UUID is a number, a fresh one is an
-- argument of the operation that makes it; text is a list of code points; a path is its components; a duration is
-- a number.
--
-- Store/Library: crates/polyterm-store/src/library.rs. The `SessionLibrary` in memory, its searches and its
-- changes; Store/Library/Ops has the operations that also write (`upsert_session`, `delete_session`,
-- `move_session`, `duplicate_session`, `create_folder`, `delete_folder`, `remove_top_folder`, `load_entry`),
-- and Store/Library/Ops/Include opens a library and includes files (`open_in`, `add_file`). State is a
-- `World`: the library and the disk. The disk (Store/Files) and the JSON codec are parameters with laws. An
-- error that stops an operation is a `Result` of Store/Op beside the state reached so far. The messages of load
-- errors are abbreviated. The library that `open_in` gives is the one in the world beside `ok`.
-- Store/Library/Listing is `list_sessions`.
-- Store/AtomicWrite: `atomic_write` of crates/polyterm-store/src/lib.rs over the calls of `std::fs`, which are
-- parameters with laws; Store/AtomicWrite/Laws makes the library's disk of it.
-- Store/KnownHosts: the table of crates/polyterm-store/src/known_hosts.rs; Store/KnownHosts/File adds its file.
-- Store/Memory is a disk in memory for the tests.
--
-- Store/Credentials: crates/polyterm-store/src/credentials.rs; the keyring is a parameter.
-- Ssh/Reconnect: `run` and `wait_backoff` of crates/polyterm-ssh/src/lib.rs, over what `establish` and
-- `run_connected` did in each turn. Ssh/Pump: `pump` of the same file, over what its `select!` takes, one message
-- at a time. Ssh/Forwards and Ssh/Socks: crates/polyterm-ssh/src/forward.rs, with the calls of the runtime and the
-- server as a list, and a socket as the bytes to read and the bytes written.
--
-- Ssh/Io, Ssh/Auth, Ssh/Establish: `establish`, `authenticate_with` and what they call, `check_server_key` (same file).
-- The SSH library, the agent, the key files and the answers of the window are one parameter, `Outside`, over a state
-- of its own; an operation also gives the list of what it sent and heard. A keyboard-interactive exchange is a tree
-- of what the server says, so a server that asks for ever is not covered.
--
-- Serial/Session: `run` and `wait_and_reopen` of crates/polyterm-serial/src/session.rs, over what each turn of the
-- loop finds on the channels, at the port and on the clock.
--
-- Pty/Session: crates/polyterm-pty/src/lib.rs (`build_command`, `spawn_reader`, `spawn_writer`, `spawn_controller`), over
-- what each turn of a task's loop finds.
--
-- Term/Terminal, Term/Snapshot: crates/polyterm-term/src/terminal.rs and snapshot.rs, over an emulation library that is
-- a parameter (its grid, its events and what it reports damaged). The row numbers stay in an `i32`.
--
-- Ui/InputQueue, Ui/Mouse, Ui/Selection: crates/polyterm-ui/src/pane.rs (`send_input`, `enqueue_input`,
-- `drain_input`; `encode_mouse` and what it is given; `Selection`, `selection_text`, `wrap_paste`). Ui/PaneEvents: the events part of `pump` there, and `add_forward`
-- and `remove_forward` (`request_forward` and `drop_forward`). The bounded
-- channel is a parameter. Ui/Palette: crates/polyterm-ui/src/palette.rs. Ui/LineTimestamper:
-- crates/polyterm-ui/src/session_log.rs, whose sink and clock are parameters. Ui/Recipients: the broadcast walks of
-- crates/polyterm-ui/src/app.rs over a tree of tiles that is a parameter. These walks recurse on fuel: more fuel
-- than the height of the tree is enough, and the theorems on them are stated for any such fuel.
--
-- Ui/Prompts/Modal: crates/polyterm-ui/src/prompts.rs, over what egui reports of a frame. Ui/Prompts/Answer:
-- `handle_prompt`, `enqueue_modal`, `resolve_modal` and the modal's turn in a frame of crates/polyterm-ui/src/app.rs.
-- Ui/Keys: crates/polyterm-ui/src/keys.rs, over the crate that reads keys. Ui/Sessions and Ui/Sessions/Editor:
-- crates/polyterm-ui/src/sessions.rs (`parse_folder`, `folder_to_string`, `SessionEditor`; the folder tree is Ui/Sessions/Tree). Ui/ForwardForm: the form
-- of a forward in app.rs. Ui/Form: what both forms share.
-- Ui/Tiles and Ui/Panes: the panes of app.rs (`attach_pane`, `add_tab_beside`, `split_tile`; `open_source` to
-- `pane_is_ssh`, `show_confirm_close_dialog`, `validate_focus`). The tree of `egui_tiles` is a parameter, with what it
-- does to its panes and containers as laws in Ui/Tiles/Shown; so is the spawner, whose answers may change from step to step.
-- Ui/Keyboard: `route_keyboard` and `deliver_paste` of app.rs, and `encode_key` of pane.rs.
--
-- Machine integers are natural numbers with the wrap-around written out. Loops over what arrives from outside recurse on
-- the list of arrivals, so they need no fuel.
--
-- Not modelled: drawing, the terminal emulation library, RDP, SFTP, logging and file dialogs; the session panel.
pub mod Prelude
pub mod Core
pub mod Store
pub mod Ui
pub mod Ssh
pub mod Serial
pub mod Pty
pub mod Term
