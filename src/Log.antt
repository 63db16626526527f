-- ===== src/Log.antt =====
-- server/log.c: the level of the log, and the file that a line goes to. What `read_config` finds, the date
-- and the descriptors that `open` returns are arguments; the text of the lines is left out.
pub mod Laws
mod Tests
use netdisk.Prelude.{
  ℕ, zero, suc, ◌+◌, ◌-◌, Bool, true, false, not, List, [], ◌∷◌, ◌++◌, map, Option, none, some,
  ◌==◌, if◌then◌else◌, ◌&&◌, ◌||◌, get_or, get_elem?, set, take, ltb, leb, codes,
}
use netdisk.Wire.{Text, text_eq}

-- `toupper` in the C locale
abbrev pub toupper : ℕ → ℕ
toupper c = if leb b'a' c && leb c b'z' then c - 32 else c

-- the number of a level, or `none` for -1
pub str_to_lever : Text → Option ℕ
str_to_lever set_lever =
    let s = map toupper set_lever in
    if text_eq s (codes "DEBUG")
    then some 0
    else if text_eq s (codes "INFO")
    then some 1
    else if text_eq s (codes "WARNING")
    then some 2
    else if text_eq s (codes "ERROR")
    then some 3
    else none

-- `output_control` on fuel: the answer with the new `output_level` (`none` for -1), or `none` where the fuel
-- is used up. Where no level is configured, the macro `LOG` calls `output_control` for a warning before
-- the default is set.
pub output_control :
    ℕ → (config : Option Text) → (level : ℕ) → (output_level : Option ℕ) → Option (Bool × Option ℕ)
unfolding str_to_lever
output_control zero config level output_level = none
output_control (suc k) config level (some l) = some (leb l level, some l)
output_control (suc k) config level none =
    let warned = output_control k config 2 none in
    let default : Option (Bool × Option ℕ) = elim warned [
      | none ↦ none
      | some r ↦ some (leb 1 level, some 1)
    ] in
    elim config [
      | none ↦ default
      | some text ↦ elim (str_to_lever text) [
        | none ↦ default
        | some l ↦ some (leb l level, some l)
      ]
    ]

-- the globals `log_fd`, -1 as `none`, and `curr_date`
pub record Files : Type 0 where
  pub log_fd : List (Option ℕ)
  pub curr_date : Text

-- `get_log_isolate`, for the value that `read_config` finds
abbrev pub get_log_isolate : Option Text → Bool
get_log_isolate none = false
get_log_isolate (some isolate) = text_eq isolate (codes "true")

-- `get_thread_conf`, in the same way
abbrev pub get_thread_conf : Option Text → Bool
get_thread_conf none = false
get_thread_conf (some thread) = text_eq thread (codes "true")

-- the place of a level in `log_fd`
abbrev pub log_idx : (is_isolate : Bool) → (level : ℕ) → ℕ
log_idx is_isolate level = if is_isolate then level + 1 else 0

abbrev pub get_curr_fd : Bool → ℕ → Files → Option ℕ
get_curr_fd is_isolate level s = get_or s.log_fd (log_idx is_isolate level) none

-- the names of the levels in the files' names
abbrev pub levels : List Text
levels = codes "DBUG" ∷ codes "INFO" ∷ codes "WARN" ∷ codes "ERRO" ∷ []

-- the name, or `none` for -1
abbrev pub level_to_str : ℕ → Option Text
level_to_str level = if ltb 3 level then none else get_elem? levels level

-- the array `level_str`, which stays empty where there is no name
abbrev pub level_str : ℕ → Text
level_str level = elim (level_to_str level) [ none ↦ [] | some name ↦ name ]

abbrev pub log_path : Bool → Text → ℕ → Text
log_path is_isolate now_date level =
    if is_isolate
    then codes "./log/" ++ (now_date ++ (codes "_" ++ (level_str level ++ codes ".log")))
    else codes "./log/" ++ (now_date ++ codes ".log")

module _ (open_log : Text → Option ℕ) where
  pub update_log_info : Bool → Text → ℕ → Files → Option ℕ × Files
  update_log_info is_isolate now_date level s =
      let fd = open_log (log_path is_isolate now_date level) in
      (fd, record { log_fd = set s.log_fd (log_idx is_isolate level) fd; curr_date = now_date })

  -- `get_log_fd` on a day; dates are ten bytes long, as `strncmp` compares them.
  pub get_log_fd : Bool → Text → ℕ → Files → Option ℕ × Files
  unfolding update_log_info
  get_log_fd is_isolate now_date level s = elim (get_curr_fd is_isolate level s) [
    | none ↦ update_log_info is_isolate now_date level s
    | some fd ↦
        if not (text_eq s.curr_date now_date)
        then update_log_info is_isolate now_date level s
        else (some fd, s)
  ]
