-- ===== src/Catalog/Fits.antt =====
-- `query_cd` as the search in rows whose names fit their array.
use netdisk.Prelude.{
  Bool, ℕ, ◌<◌, ◌≡◌, true, List, [], ◌∷◌, ◌++◌, some, ℤ, arith, length, Bool-cases, inl, inr, ap,
  ◌∙◌,
}
use netdisk.Wire.{Text}
use netdisk.Catalog.Tables.{select, file_name_size, UserFile, Tables}
use netdisk.Catalog.Directory.{rows_of, cd_in, all_fit, query_cd}

-- a row that is the only one of its kind
pub select_last-none :
    {A : Type 0} (p : A → Bool) (l : List A) (x : A)
    → select p l ≡ []
    → p x ≡ true
    → select p (l ++ x ∷ []) ≡ x ∷ []
select_last-none p [] x e h = rw h
select_last-none p (y ∷ l) x e h = ground (arith, select_last-none p l x, h)

pub all_fit-last :
    (rows : List UserFile) (m : UserFile)
    → all_fit rows ≡ true
    → length m.name < file_name_size
    → all_fit (rows ++ m ∷ []) ≡ true
all_fit-last [] m e lt = ground (arith, lt)
all_fit-last (r ∷ rows) m e lt = ground (arith, e, all_fit-last rows m, lt)

pub query_cd-fits :
    (t : Tables) (path : Text) (user_id : ℕ) (d : ℤ)
    → query_cd t path user_id ≡ some d
    → (all_fit (rows_of user_id t) ≡ true) × (cd_in (rows_of user_id t) path ≡ some d)
unfolding query_cd
query_cd-fits t path user_id d e = elim (Bool-cases (all_fit (rows_of user_id t))) [
  | inl f ↦ (f, ground (arith, e, f))
  | inr f ↦ absurd (ground (arith, e, f))
]

pub query_cd-rows :
    (t : Tables) (path : Text) (user_id : ℕ) (rows : List UserFile)
    → rows_of user_id t ≡ rows
    → all_fit rows ≡ true
    → query_cd t path user_id ≡ cd_in rows path
unfolding query_cd
query_cd-rows t path user_id rows is f =
    let g = ap all_fit is ∙ f in rw g (ap (λ l. cd_in l path) is)
