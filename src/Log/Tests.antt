-- ===== src/Log/Tests.antt =====
-- The log on small inputs, and its theorems there.
use netdisk.Prelude.{
  ℕ, ◌≡◌, ◌≢◌, inl, refl, true, false, [], ◌∷◌, Option, none, some, codes, length, arith,
}
use netdisk.Wire.{Text}
use netdisk.Log.{str_to_lever, output_control, Files, log_path, get_log_fd}
use netdisk.Log.Laws.{Current, output_control-endless, get_log_fd-Current, get_log_fd_stale}

named : log_path true (codes "2024-01-01") 3 ≡ codes "./log/2024-01-01_ERRO.log"
named = refl

lower : str_to_lever (codes "warning") ≡ some 2
unfolding str_to_lever
lower = refl

abbrev monday : Text
monday = codes "2024-01-01"

abbrev tuesday : Text
tuesday = codes "2024-01-02"

-- a descriptor for each name of a file
abbrev opens : Text → Option ℕ
opens path = some (length path)

abbrev start : Files
start = record { log_fd = none ∷ none ∷ none ∷ none ∷ none ∷ []; curr_date = [] }

abbrev two_open : Files
two_open = record { log_fd = none ∷ some 25 ∷ some 26 ∷ none ∷ none ∷ []; curr_date = monday }

get_log_fd-Current_example :
    ((get_log_fd opens false monday 3 start).0 ≡ opens (log_path false monday 3))
    × Current opens (get_log_fd opens false monday 3 start).1
get_log_fd-Current_example = get_log_fd-Current opens monday 3 start (omega arith, inl refl)

output_control-endless_example : output_control 1000 none 0 none ≡ none
output_control-endless_example = output_control-endless none 0 1000 (inl refl)

one_two : ◌≢◌ {A = ℕ} 0 1
one_two e = absurd (omega (arith, e))

get_log_fd_stale_example :
    let (fd', s') = get_log_fd opens true tuesday 0 two_open in
    (fd' ≡ opens (log_path true tuesday 0)) × (get_log_fd opens true tuesday 1 s' ≡ (some 26, s'))
get_log_fd_stale_example = get_log_fd_stale opens tuesday 0 1 26 two_open one_two refl refl
