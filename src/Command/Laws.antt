-- ===== src/Command/Laws.antt =====
-- What the commands answer, and how they move the work path.
use netdisk.Prelude.{
  ℕ, zero, suc, ◌≡◌, ◌≢◌, ◌⊎◌, inl, inr, refl, ap, sym, subst, true, false, List, [], ◌∷◌, Option,
  none, some, codes, ℤ, pos, negsuc, arith, All, get_elem?, Bool-cases, Option-cases,
}
use netdisk.Wire.{Text, TransFile, text_eq, text_eq-eq, text_eq_self}
use netdisk.Tool.UserPath.{TokenInfo, get_user_path}
use netdisk.Catalog.Tables.{Tables}
use netdisk.Catalog.Directory.{query_cd, query_ls}
use netdisk.Command.{command, find_command, send_message, change_to, change_dir, show_dir}

-- `query_cd` finds the work path.
abbrev pub Valid : Tables → TokenInfo → Type 0
Valid t info = (d : ℕ) × (query_cd t info.workpath info.user_id ≡ some (pos (suc d)))

-- The answer to `cd` is one message, the user id stays, and a work path that the tables have is followed by
-- one that they have, so that no `cd` leads out of the user's tree.
pub change_dir-Valid :
    (generate : TokenInfo → Option Text) (t : Tables) (argument : Text) (info info' : TokenInfo)
    (sent : List TransFile)
    → Valid t info
    → change_dir generate t argument info ≡ some (sent, info')
    → Valid t info' × (info'.user_id ≡ info.user_id) × ((m : TransFile) × (sent ≡ m ∷ []))
unfolding change_dir change_to
change_dir-Valid generate t argument info info' sent valid e = at (get_user_path argument info) refl
  where
    stay :
        {m : TransFile}
        → info ≡ info'
        → m ∷ [] ≡ sent
        → Valid t info' × (info'.user_id ≡ info.user_id) × ((m : TransFile) × (sent ≡ m ∷ []))
    stay {m} same is =
        (subst (Valid t) same valid, sym (ap (λ (i : TokenInfo). i.user_id) same), (m, sym is))

    to :
        (path : Text) (dir : Option ℤ)
        → query_cd t path info.user_id ≡ dir
        → get_user_path argument info ≡ some path
        → Valid t info' × (info'.user_id ≡ info.user_id) × ((m : TransFile) × (sent ≡ m ∷ []))
    to path none f g = absurd (ground (arith, f, g))
    to path (some (negsuc n)) f g =
        stay {m = send_message generate (codes "server busy,please retry") false info}
          (ground (arith, f, g)) (ground (arith, f, g))
    to path (some (pos zero)) f g =
        stay {m = send_message generate (codes "illegal path, please retry") false info}
          (ground (arith, f, g)) (ground (arith, f, g))
    to path (some (pos (suc d))) f g =
        let moved : record { user_id = info.user_id; workpath = path } ≡ info' =
          ground (arith, f, g) in
        let one : (m : TransFile) × (sent ≡ m ∷ []) = (
          send_message generate (codes "change success") false
              (record { user_id = info.user_id; workpath = path }),
          sym (ground (arith, f, g)),
        ) in
        (subst (Valid t) moved (d, f), sym (ap (λ (i : TokenInfo). i.user_id) moved), one)

    at :
        (o : Option Text)
        → get_user_path argument info ≡ o
        → Valid t info' × (info'.user_id ≡ info.user_id) × ((m : TransFile) × (sent ≡ m ∷ []))
    at none g = absurd (ground (arith, g))
    at (some path) g = to path (query_cd t path info.user_id) refl g

find_command-some :
    (cmd : Text) (cs : List Text) (n : ℕ) → find_command cmd cs ≡ some n → get_elem? cs n ≡ some cmd
unfolding find_command
find_command-some cmd [] n e = absurd (cc)
find_command-some cmd (c ∷ cs) n e = elim (Bool-cases (text_eq cmd c)) [
  | inl hit ↦ ground (arith, hit, text_eq-eq cmd c hit)
  | inr miss ↦ elim (Option-cases (find_command cmd cs)) [
    | inl f ↦ absurd (ground (arith, miss, f))
    | inr (k, f) ↦ ground (arith, miss, f, find_command-some cmd cs k f)
  ]
]

apart : (cmd c : Text) → text_eq cmd c ≡ false → c ≢ cmd
apart cmd c miss is =
    absurd (ground (arith, miss, subst (λ d. text_eq cmd d ≡ true) (sym is) (text_eq_self cmd)))

find_command-none :
    (cmd : Text) (cs : List Text) → find_command cmd cs ≡ none → All (λ c. c ≢ cmd) cs
unfolding find_command
find_command-none cmd [] e = tt
find_command-none cmd (c ∷ cs) e = elim (Bool-cases (text_eq cmd c)) [
  | inl hit ↦ absurd (ground (arith, hit))
  | inr miss ↦ elim (Option-cases (find_command cmd cs)) [
    | inl f ↦ (apart cmd c miss, find_command-none cmd cs f)
    | inr (k, f) ↦ absurd (ground (arith, miss, f))
  ]
]

-- The loop over the command table stops at an entry that is the command, or at the end if no entry is: a
-- handler is called only for the command whose number it has in the table.
pub find_command-command :
    (cmd : Text)
    → ((n : ℕ) × (find_command cmd command ≡ some n) × (get_elem? command n ≡ some cmd))
      ⊎ ((find_command cmd command ≡ none) × All (λ c. c ≢ cmd) command)
find_command-command cmd = elim (Option-cases (find_command cmd command)) [
  | inl e ↦ inr (e, find_command-none cmd command e)
  | inr (n, e) ↦ inl (n, e, find_command-some cmd command n e)
]

-- For a path that the tables do not have, `cd` answers that it is illegal and keeps the work path, but `ls`
-- follows the NULL that `query_ls` returns.
pub show_dir_null :
    (generate : TokenInfo → Option Text) (t : Tables) (argument path : Text) (info : TokenInfo)
    → get_user_path argument info ≡ some path
    → query_cd t path info.user_id ≡ some (pos 0)
    → (show_dir generate t argument info ≡ none)
      × (change_dir generate t argument info
          ≡ some (send_message generate (codes "illegal path, please retry") false info ∷ [], info))
unfolding show_dir change_dir change_to query_ls
show_dir_null generate t argument path info e f = (ground (arith, e, f), ground (arith, e, f))
