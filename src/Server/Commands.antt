-- ===== src/Server/Commands.antt =====
-- `process_msg` of src/main.c with its handlers. Parameters are `cJSON_Parse`, what
-- `cJSON_GetObjectItem` finds, and `add_task` and `make_torrent` of the torrent client.

use bt_server.Prelude.{
  ℕ, List, [], ◌∷◌, ◌++◌, Bool, false, ◌&&◌, ◌||◌, Option, none, some, ◌==◌, leb, ltb,
  if◌then◌else◌, length,
}
use bt_server.Http.{codes}
use bt_server.Server.{read_packet_order}

-- `tracker` and `run_flag`
pub record Node : Type 0 where
  pub tracker : List ℕ
  pub run_flag : Bool

-- What a handler sends: a code, 0 or -1, the number of a task, or the state of one.
pub data Answer : Type 0 where
  success failure : Answer
  task : ℕ → Answer
  state : Answer

-- An item of the data: there is none, or it has no `valuestring`, or it is a string.
pub data Item : Type 0 where
  absent no_string : Item
  text : List ℕ → Item

-- What a message leads to: an answer, or none, for an unknown order; a NULL that is read or that is
-- passed on as a string; a write behind `tracker`; or a write of eight bytes over the four of a number.
pub data Handling : Type 0 where
  answered : Node → Answer → Handling
  unanswered null_string overflowed overwritten : Handling

-- `tracker` in the end: "%s:%d" with `track_port`, 50020
abbrev pub tracker_of : List ℕ → List ℕ
tracker_of ip = ip ++ codes ":50020"

-- The room of `tracker`.
abbrev pub tracker_size : ℕ
tracker_size = 128

-- `isspace`
abbrev pub is_space : ℕ → Bool
is_space c = c == 32 || (leb 9 c && leb c 13)

abbrev pub is_digit : ℕ → Bool
is_digit c = leb 48 c && leb c 57

abbrev pub starts_digit : List ℕ → Bool
starts_digit [] = false
starts_digit (c ∷ s) = is_digit c

-- Whether "%lld" matches: white space, a sign and a digit.
unfoldable pub matches_number : List ℕ → Bool
matches_number [] = false
matches_number (c ∷ s) =
    let later = matches_number s in
    if is_space c then later else if c == b'+' || c == b'-' then starts_digit s else is_digit c

module _ {Doc : Type 0} (parse : List ℕ → Option Doc) (item : Doc → List ℕ → Item)
    (add_task : List ℕ → List ℕ → ℕ) (make_torrent : List ℕ → List ℕ → List ℕ → Bool) where
  abbrev pub set_ip : Node → Item → Handling
  set_ip s absent = answered s success
  set_ip s no_string = null_string
  set_ip s (text ip) =
      if ltb (length (tracker_of ip)) tracker_size
      then answered (record s { tracker = tracker_of ip }) success
      else overflowed

  abbrev pub recv_set_tracker : Node → Option Doc → Handling
  recv_set_tracker s none = answered s failure
  recv_set_tracker s (some root) = set_ip s (item root (codes "ip"))

  abbrev pub add_items : Node → Item → Item → Handling
  add_items s absent o = answered s failure
  add_items s no_string absent = answered s failure
  add_items s no_string no_string = null_string
  add_items s no_string (text save_path) = null_string
  add_items s (text torrent) absent = answered s failure
  add_items s (text torrent) no_string = null_string
  add_items s (text torrent) (text save_path) = answered s (task (add_task torrent save_path))

  abbrev pub recv_add_task : Node → Option Doc → Handling
  recv_add_task s none = answered s failure
  recv_add_task s (some root) =
      add_items s (item root (codes "torrent")) (item root (codes "save_path"))

  -- Nothing sets `ret`: whether it is SUCCESS is the argument `unset`.
  abbrev pub recv_del_task : Bool → Node → Option Doc → Handling
  recv_del_task unset s none = answered s failure
  recv_del_task unset s (some root) = answered s (if unset then success else failure)

  abbrev pub make_items : Node → Item → Item → Handling
  make_items s (text file_path) (text torrent_path) =
      answered s (if make_torrent file_path torrent_path s.tracker then success else failure)
  make_items s (text file_path) absent = null_string
  make_items s (text file_path) no_string = null_string
  make_items s absent o = null_string
  make_items s no_string o = null_string

  abbrev pub recv_make_torrent : Node → Option Doc → Handling
  recv_make_torrent s none = answered s failure
  recv_make_torrent s (some root) =
      make_items s (item root (codes "file_path")) (item root (codes "torrent_path"))

  -- `sscanf` with "%lld" into a `uint32_t`, which it writes where a number matches.
  abbrev pub scan_id : Node → Item → Handling
  scan_id s absent = null_string
  scan_id s no_string = null_string
  scan_id s (text id) = if matches_number id then overwritten else answered s state

  abbrev pub recv_get_task_state : Node → Option Doc → Handling
  recv_get_task_state s none = answered s failure
  recv_get_task_state s (some root) =
      if s.run_flag then answered s failure else scan_id s (item root (codes "torrent_id"))

  -- SET_TRACKER, ADD_TASK, DEL_TASK, MAKE_TORRETN, GET_TASK_STATE
  unfoldable pub process_msg : Bool → Node → List ℕ → List ℕ → Handling
  process_msg unset s packet data_buf =
      let order = read_packet_order packet in
      if order == 2002
      then recv_set_tracker s (parse data_buf)
      else if order == 2003
      then recv_add_task s (parse data_buf)
      else if order == 2004
      then recv_del_task unset s (parse data_buf)
      else if order == 2005
      then recv_make_torrent s (parse data_buf)
      else if order == 2006
      then recv_get_task_state s (parse data_buf)
      else unanswered
