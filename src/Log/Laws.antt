-- ===== src/Log/Laws.antt =====
-- When the level of the log is found, and when lines go to the file of their day.
use netdisk.Prelude.{
  subst, ℕ, zero, suc, ◌+◌, ◌≤◌, ◌<◌, ◌≡◌, ◌≢◌, ◌⊎◌, inl, inr, refl, ap, sym, ◌∙◌, Bool, true,
  false, List, [], ◌∷◌, Option, none, some, length, get_or, set, arith, Bool-cases, Option-cases,
  length-set,
}
use netdisk.Wire.{Text, text_eq, text_eq-eq, text_eq_self}
use netdisk.Log.{
  str_to_lever, output_control, Files, get_curr_fd, log_path, update_log_info, get_log_fd,
}

-- no level is configured, or one that is none
abbrev pub Unset : Option Text → Type 0
Unset config = (config ≡ none) ⊎ ((text : Text) × (config ≡ some text) × (str_to_lever text ≡ none))

-- While no level is known, and none is configured or an unknown one, `output_control` calls itself without end,
-- whatever the level of the line: no number of rounds is enough for an answer.
pub output_control-endless :
    (config : Option Text) (level k : ℕ) → Unset config → output_control k config level none ≡ none
unfolding output_control
output_control-endless config level zero unset = refl
output_control-endless none level (suc k) unset =
    ground (arith, output_control-endless none 2 k unset)
output_control-endless (some text) level (suc k) (inl e) = absurd (cc)
output_control-endless (some text) level (suc k) (inr (t, is, unknown)) =
    ground (arith, is, unknown, output_control-endless (some text) 2 k (inr (t, is, unknown)))

get_or-set :
    (l : List (Option ℕ)) (i : ℕ) (v : Option ℕ) → i < length l → get_or (set l i v) i none ≡ v
get_or-set [] i v lt = absurd (omega arith)
get_or-set (x ∷ l) zero v lt = refl
get_or-set (x ∷ l) (suc i) v lt = get_or-set l i v (omega arith)

get_or-other :
    (l : List (Option ℕ)) (i j : ℕ) (v : Option ℕ)
    → i ≢ j
    → get_or (set l i v) j none ≡ get_or l j none
get_or-other [] i j v ne = refl
get_or-other (x ∷ l) zero zero v ne = absurd (ne refl)
get_or-other (x ∷ l) zero (suc j) v ne = refl
get_or-other (x ∷ l) (suc i) zero v ne = refl
get_or-other (x ∷ l) (suc i) (suc j) v ne = get_or-other l i j v (λ e. ne (ap suc e))

-- A level without a file, or a new day, opens a file; otherwise the level's file is used on.
updates :
    (open_log : Text → Option ℕ) (is_isolate : Bool) (now_date : Text) (level : ℕ) (s : Files)
    → (get_curr_fd is_isolate level s ≡ none) ⊎ (text_eq s.curr_date now_date ≡ false)
    → get_log_fd open_log is_isolate now_date level s
      ≡ update_log_info open_log is_isolate now_date level s
unfolding get_log_fd
updates open_log is_isolate now_date level s (inl e) = ground (arith, e)
updates open_log is_isolate now_date level s (inr e) =
    elim (Option-cases (get_curr_fd is_isolate level s)) [
      | inl f ↦ ground (arith, f)
      | inr (fd, f) ↦ ground (arith, e, f)
    ]

keeps :
    (open_log : Text → Option ℕ) (is_isolate : Bool) (now_date : Text) (level : ℕ) (s : Files)
    (fd : ℕ)
    → get_curr_fd is_isolate level s ≡ some fd
    → text_eq s.curr_date now_date ≡ true
    → get_log_fd open_log is_isolate now_date level s ≡ (some fd, s)
unfolding get_log_fd
keeps open_log is_isolate now_date level s fd e same = ground (arith, e, same)

-- the one file of a log that is not isolated is the file of the current date
abbrev pub Current : (Text → Option ℕ) → Files → Type 0
Current open_log s =
    (1 ≤ length s.log_fd)
    × ((get_curr_fd false 0 s ≡ none)
        ⊎ (get_curr_fd false 0 s ≡ open_log (log_path false s.curr_date 0)))

-- In a log that is not isolated, every line goes to the file of its day, or to none if that cannot be opened,
-- from the first line on and over every change of the date.
pub get_log_fd-Current :
    (open_log : Text → Option ℕ) (now_date : Text) (level : ℕ) (s : Files)
    → Current open_log s
    → let (fd, s') = get_log_fd open_log false now_date level s in
      (fd ≡ open_log (log_path false now_date level)) × Current open_log s'
unfolding update_log_info
get_log_fd-Current open_log now_date level s (long, current) =
    elim (Option-cases (get_curr_fd false 0 s)) [
      | inl e ↦ subst P (sym (updates open_log false now_date level s (inl e))) made
      | inr (fd, e) ↦ elim (Bool-cases (text_eq s.curr_date now_date)) [
        | inl same ↦
            subst P (sym (keeps open_log false now_date level s fd e same))
              (old fd e same current, (long, current))
        | inr other ↦ subst P (sym (updates open_log false now_date level s (inr other))) made
      ]
    ]
  where
    P : Option ℕ × Files → Type 0
    P r = (r.0 ≡ open_log (log_path false now_date level)) × Current open_log r.1

    made : P (update_log_info open_log false now_date level s)
    made = (
      refl,
      (
        omega (arith, length-set s.log_fd 0 (open_log (log_path false now_date level))),
        inr (get_or-set s.log_fd 0 (open_log (log_path false now_date level)) (omega arith)),
      ),
    )

    old :
        (fd : ℕ)
        → get_curr_fd false 0 s ≡ some fd
        → text_eq s.curr_date now_date ≡ true
        → (get_curr_fd false 0 s ≡ none)
          ⊎ (get_curr_fd false 0 s ≡ open_log (log_path false s.curr_date 0))
        → some fd ≡ open_log (log_path false now_date level)
    old fd e same (inl f) = absurd (ground (arith, e, f))
    old fd e same (inr f) =
        sym e ∙ f ∙ ap (λ d. open_log (log_path false d 0)) (text_eq-eq s.curr_date now_date same)

-- In an isolated log with the files of two levels open, the first line after midnight opens a new file for its
-- own level only, but notes the date for all: the other level's lines still go to the old file.
pub get_log_fd_stale :
    (open_log : Text → Option ℕ) (now_date : Text) (level other fd : ℕ) (s : Files)
    → level ≢ other
    → text_eq s.curr_date now_date ≡ false
    → get_curr_fd true other s ≡ some fd
    → let (fd', s') = get_log_fd open_log true now_date level s in
      (fd' ≡ open_log (log_path true now_date level))
      × (get_log_fd open_log true now_date other s' ≡ (some fd, s'))
unfolding update_log_info
get_log_fd_stale open_log now_date level other fd s ne midnight opened =
    subst P (sym (updates open_log true now_date level s (inr midnight))) (
      refl,
      keeps open_log true now_date other (update_log_info open_log true now_date level s).1 fd
          (get_or-other s.log_fd (level + 1) (other + 1) (open_log (log_path true now_date level))
              (omega (arith, ne))
            ∙ opened)
          (text_eq_self now_date),
    )
  where
    P : Option ℕ × Files → Type 0
    P (fd', s') =
        (fd' ≡ open_log (log_path true now_date level))
        × (get_log_fd open_log true now_date other s' ≡ (some fd, s'))
