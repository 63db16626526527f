-- ===== src/Client/Framed.antt =====
-- Messages in the form that `command_printf` wants, and the handlers that send several.
use netdisk.Prelude.{
  ℕ, zero, suc, ◌≡◌, refl, subst, Bool, true, false, List, [], ◌∷◌, ◌++◌, map, Option, some, pos,
  negsuc, ℤ, arith, All, Option-cases, inl, inr,
}
use netdisk.Wire.{Text, TransFile}
use netdisk.Tool.UserPath.{TokenInfo, get_user_path}
use netdisk.Catalog.Tables.{File, UserFile, Session}
use netdisk.Catalog.Directory.{query_cd, query_ls, query_ll}
use netdisk.Command.{send_message, change_to, change_dir, show_dir, search_complete}
use netdisk.Command.Detail.{system_busy, detail_line, details, show_dir_detail, query_complete}
use netdisk.Client.{command_printf}

-- messages of which the last one, and no other, has no flag
abbrev pub Framed : List TransFile → Type 0
Framed [] = ⊥
Framed (m ∷ []) = m.flag ≡ false
Framed (m ∷ n ∷ ms) = (m.flag ≡ true) × Framed (n ∷ ms)

-- the token of the last message
abbrev pub last_token : List TransFile → Text
last_token [] = []
last_token (m ∷ []) = m.token
last_token (m ∷ n ∷ ms) = last_token (n ∷ ms)

abbrev pub body_of : TransFile → Text
body_of m = m.body

-- The client prints all of such messages and reads no more.
pub command_printf-Framed :
    (sent later : List TransFile)
    → Framed sent
    → command_printf (sent ++ later)
      ≡ record { global_token = last_token sent; lines = map body_of sent; unread = later }
unfolding command_printf
command_printf-Framed [] later h = elim h [ ]
command_printf-Framed (m ∷ []) later h = rw h refl
command_printf-Framed (m ∷ n ∷ ms) later h = rw (h.0, command_printf-Framed (n ∷ ms) later h.1) refl

abbrev pub Flagged : TransFile → Type 0
Flagged m = m.flag ≡ true

pub Framed-append :
    (ms : List TransFile) (m : TransFile) → All Flagged ms → m.flag ≡ false → Framed (ms ++ m ∷ [])
Framed-append [] m h e = e
Framed-append (a ∷ []) m h e = (h.0, e)
Framed-append (a ∷ b ∷ ms) m h e = (h.0, Framed-append (b ∷ ms) m h.1 e)

module _ (generate : TokenInfo → Option Text) where
  pub names-Flagged :
      (info : TokenInfo) (rows : List UserFile)
      → All Flagged (map (λ (r : UserFile). send_message generate r.name true info) rows)
  unfolding send_message
  names-Flagged info [] = tt
  names-Flagged info (r ∷ rows) = (refl, names-Flagged info rows)

  pub message-flag :
      (msg : Text) (flag : Bool) (info : TokenInfo)
      → (send_message generate msg flag info).flag ≡ flag
  unfolding send_message
  message-flag msg flag info = refl

  pub details-Flagged :
      (stat : Text → Option ℕ) (info : TokenInfo) (fs : List File) (uf : List UserFile)
      (lines : List TransFile)
      → details generate stat info fs uf ≡ some lines
      → All Flagged lines
  unfolding details
  details-Flagged stat info [] uf lines e =
      let is : [] ≡ lines = ground (arith, e) in subst (All Flagged) is tt
  details-Flagged stat info (f ∷ fs) [] lines e = elim (Option-cases (stat f.real_path)) [
    | inl g ↦ details-Flagged stat info fs [] lines (ground (arith, e, g))
    | inr (st_size, g) ↦ absurd (ground (arith, e, g))
  ]
  details-Flagged stat info (f ∷ fs) (u ∷ uf) lines e = elim (Option-cases (stat f.real_path)) [
    | inl g ↦ details-Flagged stat info fs uf lines (ground (arith, e, g))
    | inr (st_size, g) ↦ elim (Option-cases (details generate stat info fs uf)) [
      | inl h ↦ absurd (ground (arith, e, g, h))
      | inr (others, h) ↦
          let line = send_message generate (detail_line u.name st_size f.is_file) true info in
          let is : line ∷ others ≡ lines = ground (arith, e, g, h) in
          subst (All Flagged) is (
            message-flag (detail_line u.name st_size f.is_file) true info,
            details-Flagged stat info fs uf others h,
          )
    ]
  ]

  change_to-Framed :
      (dir : ℤ) (path : Text) (info : TokenInfo) → Framed (change_to generate dir path info).0
  unfolding change_to send_message
  change_to-Framed (negsuc n) path info = refl
  change_to-Framed (pos zero) path info = refl
  change_to-Framed (pos (suc d)) path info = refl

  pub change_dir-Framed :
      (s : Session) (argument : Text) (token token' : TokenInfo) (sent : List TransFile)
      → change_dir generate s.view argument token ≡ some (sent, token')
      → Framed sent
  unfolding change_dir
  change_dir-Framed s argument token token' sent e =
      elim (Option-cases (get_user_path argument token)) [
        | inl f ↦ absurd (ground (arith, e, f))
        | inr (path, f) ↦ elim (Option-cases (query_cd s.view path token.user_id)) [
          | inl g ↦ absurd (ground (arith, e, f, g))
          | inr (dir, g) ↦
              let is : (change_to generate dir path token).0 ≡ sent = ground (arith, e, f, g) in
              subst Framed is (change_to-Framed dir path token)
        ]
      ]

  pub show_dir-Framed :
      (s : Session) (argument : Text) (token : TokenInfo) (sent : List TransFile)
      → show_dir generate s.view argument token ≡ some sent
      → Framed sent
  unfolding show_dir
  show_dir-Framed s argument token sent e = elim (Option-cases (get_user_path argument token)) [
    | inl f ↦ absurd (ground (arith, e, f))
    | inr (path, f) ↦ elim (Option-cases (query_ls s.view path token.user_id)) [
      | inl g ↦ absurd (ground (arith, e, f, g))
      | inr (o, g) ↦ elim (Option-cases o) [
        | inl h ↦ absurd (ground (arith, e, f, g, h))
        | inr (rows, h) ↦
            let is : map (λ (r : UserFile). send_message generate r.name true token) rows
                  ++ send_message generate (search_complete generate) false token ∷ []
                ≡ sent =
              ground (arith, e, f, g, h) in
            subst Framed is (
              Framed-append _ (send_message generate (search_complete generate) false token)
                (names-Flagged token rows) (message-flag (search_complete generate) false token))
      ]
    ]
  ]

  pub show_dir_detail-Framed :
      (stat : Text → Option ℕ) (s : Session) (argument : Text) (token : TokenInfo)
      (sent : List TransFile)
      → show_dir_detail generate stat s.view argument token ≡ some sent
      → Framed sent
  unfolding show_dir_detail
  show_dir_detail-Framed stat s argument token sent e =
      elim (Option-cases (get_user_path argument token)) [
        | inl f ↦ absurd (ground (arith, e, f))
        | inr (path, f) ↦ elim (Option-cases (query_ll s.view path token.user_id)) [
          | inl g ↦ absurd (ground (arith, e, f, g))
          | inr (o, g) ↦ elim (Option-cases o) [
            | inl h ↦
                let is : send_message generate system_busy false token ∷ [] ≡ sent =
                  ground (arith, e, f, g, h) in
                subst Framed is (message-flag system_busy false token)
            | inr (files, h) ↦ elim (Option-cases (query_ls s.view path token.user_id)) [
              | inl k ↦ absurd (ground (arith, e, f, g, h, k))
              | inr (p, k) ↦ elim (Option-cases p) [
                | inl l ↦ absurd (ground (arith, e, f, g, h, k, l))
                | inr (names, l) ↦ elim (Option-cases (details generate stat token files names)) [
                  | inl m ↦ absurd (ground (arith, e, f, g, h, k, l, m))
                  | inr (lines, m) ↦
                      let is : lines ++ send_message generate query_complete false token ∷ []
                          ≡ sent =
                        ground (arith, e, f, g, h, k, l, m) in
                      subst Framed is (
                        Framed-append lines (send_message generate query_complete false token)
                          (details-Flagged stat token files names lines m)
                          (message-flag query_complete false token))
                ]
              ]
            ]
          ]
        ]
      ]
