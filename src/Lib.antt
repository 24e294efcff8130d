-- ===== src/Lib.antt =====
-- CozySSH, the browser client in frontend/src: the parts that carry state.
--
-- * Mark mode (frontend/src/markMode.ts), a keyboard cursor over the terminal's buffer, with the
--   motions of vim. MarkMode/Terminal is what it reads of the terminal. MarkMode/Motion has the
--   character classes, nextPos, prevPos and the word motions; MarkMode/Boundary the motions to
--   the next or the previous space. MarkMode/Manager is the class MarkModeManager as a record,
--   each method a function to the record after the call. MarkMode/Actions has the table
--   markModeActions, the key table (MarkMode/Actions/Keymap) and handleKeyDown. A key goes from the
--   dispatcher to an action, from the action to a motion and to setCursor, moveCursor or another
--   method, and from there to the terminal.
-- * The tabs and panes of the store (frontend/src/store.ts): Tabs has the part of the store that
--   they keep, and closeTab, closeOtherTabs, closeSideTabs, activatePane, the four moves, the
--   unread marks, cleanupAssociatedTabState and broadcasting.
-- * TabPanes adds closeTabOrPane and closeOtherPanes (frontend/src/store.ts), which close panes in the
--   tabs of Tabs, by closeTab where a tab goes; Titles has newTabTitle, with hostTitle and cutSuffix
--   of frontend/src/common.ts, which gives a tab a new title when its first pane goes.
-- * TabFlags (pinTab, unpinTab, lockTab, unlockTab and hideTab of frontend/src/store.ts): the request that
--   each awaits is a value, and what follows it works on the store of that time, which may be
--   another one than at the call.
-- * TabOpen (openHost, openHostsAsSplit, cloneSession, attachSession, openScratchpad and renameTab of
--   frontend/src/store.ts, removePassFromHost of frontend/src/common.ts): options are association lists, the ids that are
--   generated are arguments, and a host's query is read by a parameter. What openHost ends with is an Opening.
-- * TabEvents (frontend/src/TerminalGrid.tsx) has what a terminal of the grid writes into the tabs, and the
--   setTabs([]) that closes all tabs at once (frontend/src/store.ts), and reorderTabs of
--   frontend/src/TabBar.tsx.
-- * TabSteps has the step relation of the operations on tabs and panes, in any order, and the stores
--   that they reach from the first one. Not among the steps are closing all tabs at once, updateTabTitles, the reconnection of a stolen session and
--   the tabs that frontend/src/Dashboard.tsx restores; cloneSession, attachSession and openScratchpad are
--   steps where they keep the active pane one of the active tab, its own active one.
-- * Ordering (reorderButtons and moveGroup of frontend/src/store.ts), up to the request that stores the
--   order; localeCompare is a parameter.
-- * Proxies (createSetProxy and createMapProxy of frontend/src/common.ts): the variables of the two
--   functions and the queue of microtasks as a record; a run is a list of calls and microtasks.
-- * Hosts (parseHostName and getCanonicalHostString of frontend/src/common.ts, getHost of
--   frontend/src/store.ts, in Hosts/Lookup) on texts as lists of UTF-16 code units; decodeURIComponent and
--   encodeURIComponent are parameters. The fields of a host that are not looked at have a type of their own.
-- * HostOrder (getHostOrder, getHostGroupPath and hostSorter of frontend/src/common.ts, moveServer and
--   reorderFavourites of frontend/src/store.ts) up to the requests; parseInt and localeCompare are
--   parameters, and parseInt is asked to read numbers in decimal (ReadsDecimal, HostOrder/Tags).
-- * Search (searchString, searchStringAny, filterHosts and filterArrayByText of frontend/src/common.ts) on the same
--   texts; toLowerCase is a parameter.
-- * Keys (getKeyCombination and isModifier of frontend/src/common.ts): toLowerCase, the kind of machine and the map of
--   swapped modifiers are parameters.
-- * Toasts (notify of frontend/src/store.ts): the toasts, the next number and the timers as a record.
-- * SshConfig (getSSHConfigBlock and parseSSHConfigBlock of frontend/src/common.ts): SshConfig/Write makes a
--   host a block of an OpenSSH configuration, with the host name that parseHostName finds in the
--   name; SshConfig/Read is the loop over the lines, with the comments, the keywords and the values.
--   Texts are lists of UTF-16 code units there (SshConfig/Units), with trim, split and the two
--   regular expressions written out.
-- * Smaller parts of the store: ButtonGroups (nextButtonGroup, prevButtonGroup), Recents
--   (updateRecentButtonId, removeRecentButtonId, deleteRecent), Groups (toggleGroupExpanded,
--   toggleExpandAllGroups), Switches (the
--   expand switches and getVar), ViewModes (the new-tab dialog),
--   InputDialog (its flags) and FontSizes; ViewModes and FontSizes also
--   have the helpers of frontend/src/common.ts that they use.
--
-- Numbers are the native ℕ, and ℤ (Prelude/Int) where the code has negative ones. Where the code
-- can throw, a definition gives an Option, with none for the exception. A loop over the buffer
-- runs on fuel, one for each cell: a loop visits a cell once, so that the fuel suffices, as the
-- theorems on the motions say. A loop along a line runs on its number of cells, and the loop
-- over the button groups on their number; the search for a free title tries one title more than
-- there are terminal tabs.
--
-- What the code asks of others is recorded, newest first: Call for the terminal, the clipboard and
-- the page, Request for the server. The terminal is the package xterm.js: its lines and cells are
-- functions, IsTerminal (MarkMode/Terminal) and IsScroll (MarkMode/Manager/Valid) state what it
-- documents, and they are hypotheses; a line may be longer than the terminal is wide. The type of a pane's shell integration is a parameter. Texts
-- are sorted by code points, where the code sorts by UTF-16 units.
--
-- A store is in order (IsOrderly, TabPanes/Orderly) where no two tabs share an id and no id of a tab is
-- empty, no two panes share an id, each tab's active pane is one of its own, and the active tab
-- exists and its active pane is the active one, or there is no tab. A block can hold a host
-- (IsWritable, SshConfig/Block) whose values are on one line without white space at their ends,
-- an equals sign or quotes that reading takes off, whose name is one word, and which has no comment.
--
-- A host that a block is written for has its empty fields for the missing ones, and no fields that
-- a block never holds, such as the password.
--
-- Not modelled: the views, the pixels of the overlay, the style sheets, the calls of the browser,
-- and the server.
pub mod Prelude
pub mod ButtonGroups
pub mod FontSizes
pub mod Groups
pub mod HostOrder
pub mod Hosts
pub mod InputDialog
pub mod Keys
pub mod MarkMode
pub mod Ordering
pub mod Proxies
pub mod Recents
pub mod Search
pub mod SshConfig
pub mod Switches
pub mod TabEvents
pub mod TabFlags
pub mod TabOpen
pub mod TabPanes
pub mod TabSteps
pub mod Tabs
pub mod Titles
pub mod Toasts
pub mod ViewModes
