-- ===== src/Tool/UserPath.antt =====
-- `get_user_path` of server/tool.c: the server's path for what a client calls `argument`.
use netdisk.Prelude.{
  ℕ, ◌+◌, ◌<◌, ◌≡◌, inl, inr, Bool-cases, refl, ap, sym, ◌∙◌, List, [], ◌∷◌, ◌++◌, Option, none,
  some, ◌==◌, if◌then◌else◌, arith, All, All-append, length, length-append, ltb,
}
use netdisk.Wire.{Text}
use netdisk.Tool.Space.Words.{Lacks}
use netdisk.Tool.FileName.{slash, splite_file_name}
use netdisk.Tool.FileName.Names.{
  path_of, path_of-append, path_of-single, path_of-splite_file_name, splite_file_name-path_of,
}
use netdisk.Tool.Simplify.{simplify_path}
use netdisk.Tool.Simplify.Resolve.{resolve, render}
use netdisk.Tool.Simplify.Laws.{simplify_path-path_of}

-- `token_info`, filled by `verify_token`
pub record TokenInfo : Type 0 where
  pub user_id : ℕ
  pub workpath : Text

-- the size of the arrays for paths
abbrev pub path_size : ℕ
path_size = 1024

-- `sprintf` into `user_path`, and the simplification of what it wrote
pub simplify_in : Text → Option Text
simplify_in user_path = if ltb (length user_path) path_size then simplify_path user_path else none

-- the text that is written for the names `res` of the work path
pub joined : Text → Text → List Text → Option Text
joined argument workpath [] = none
joined [] workpath (first ∷ res) = none
joined (c ∷ argument) workpath (first ∷ res) =
    if c == slash
    then some (slash ∷ first ++ c ∷ argument)
    else some (workpath ++ slash ∷ c ∷ argument)

unfoldable pub get_user_path : Text → TokenInfo → Option Text
unfolding joined simplify_in
get_user_path [] token = some token.workpath
get_user_path (c ∷ argument) token = elim (splite_file_name token.workpath) [
  | none ↦ none
  | some res ↦ elim (joined (c ∷ argument) token.workpath res) [
    | none ↦ none
    | some user_path ↦ simplify_in user_path
  ]
]

-- the directory that an argument starts from: the user's own one for an absolute path, and the work
-- directory for a relative one
abbrev pub start_of : Text → Text → List Text → List Text
start_of [] r ws = r ∷ ws
start_of (c ∷ argument) r ws = if c == slash then r ∷ [] else r ∷ ws

-- the argument with a slash in front
abbrev pub rooted : Text → Text
rooted [] = slash ∷ []
rooted (c ∷ argument) = if c == slash then c ∷ argument else slash ∷ c ∷ argument

pub simplify-names :
    (r : Text) (ws ms : List Text) (t : Text)
    → All (Lacks slash) (r ∷ ws)
    → All (Lacks slash) ms
    → path_of (r ∷ ws) ++ path_of ms ≡ t
    → simplify_path t ≡ some (render (resolve [] ((r ∷ ws) ++ ms)))
simplify-names r ws ms t h k e =
    ap simplify_path (sym e ∙ sym (path_of-append (r ∷ ws) ms))
    ∙ simplify_path-path_of r (ws ++ ms) (All-append _ (r ∷ ws) ms h k)

user_path-run :
    (c user_id : ℕ) (argument workpath t first : Text) (res : List Text)
    → splite_file_name workpath ≡ some (first ∷ res)
    → joined (c ∷ argument) workpath (first ∷ res) ≡ some t
    → length t < path_size
    → get_user_path (c ∷ argument) (record { user_id = user_id; workpath = workpath })
      ≡ simplify_path t
unfolding get_user_path
user_path-run c user_id argument workpath t first res e f fits = ground (arith, e, f)

-- In the work directory of names `r ∷ ws`, the path of a non-empty argument is that of the directory that
-- the argument's names lead to: from the user's own directory `r` if the argument begins with a slash,
-- and from the work directory otherwise. The text before simplification has to fit its array.
pub get_user_path-resolve :
    (r : Text) (ws : List Text) (user_id c : ℕ) (argument : Text)
    → All (Lacks slash) (r ∷ ws)
    → length (path_of (r ∷ ws)) + length argument + 2 < path_size
    → (ms : List Text) × (splite_file_name (rooted (c ∷ argument)) ≡ some ms)
      × (get_user_path (c ∷ argument) (record { user_id = user_id; workpath = path_of (r ∷ ws) })
          ≡ some (render (resolve [] (start_of (c ∷ argument) r ws ++ ms))))
unfolding path_of
get_user_path-resolve r ws user_id c argument h fits = elim (Bool-cases (c == slash)) [
  | inl e ↦
      let is : c ≡ slash = ground arith in
      let (ms, f, k, p) = path_of-splite_file_name argument in
      let text = ap (λ d. slash ∷ r ++ d ∷ argument) (sym is) in
      (
        ms,
        rw e (ap (λ d. splite_file_name (d ∷ argument)) is ∙ f),
        user_path-run c user_id argument (path_of (r ∷ ws)) (slash ∷ r ++ c ∷ argument) r ws
              (splite_file_name-path_of r ws h) (unfold joined in rw e refl)
              (omega (arith, length-append {0} r (path_of ws), length-append {0} r (c ∷ argument)))
            ∙ rw e (
                simplify-names r [] ms (slash ∷ r ++ c ∷ argument) (h.0, tt) k
                  (ap (λ l. l ++ path_of ms) (path_of-single r)
                    ∙ ap (λ l. slash ∷ r ++ l) p
                    ∙ text)),
      )
  | inr e ↦
      let (ms, f, k, p) = path_of-splite_file_name (c ∷ argument) in
      (
        ms,
        rw e f,
        user_path-run c user_id argument (path_of (r ∷ ws))
              (path_of (r ∷ ws) ++ slash ∷ c ∷ argument) r ws (splite_file_name-path_of r ws h)
              (unfold joined in rw e refl)
              (omega (arith, length-append {0} (path_of (r ∷ ws)) (slash ∷ c ∷ argument)))
            ∙ rw e (
                simplify-names r ws ms (path_of (r ∷ ws) ++ slash ∷ c ∷ argument) h k
                  (ap (λ l. path_of (r ∷ ws) ++ l) p)),
      )
]
