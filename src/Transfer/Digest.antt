-- ===== src/Transfer/Digest.antt =====
-- `generate_digest` and `match_digest` of server/hash.c (client/hash.c has the same text): a digest of a file,
-- read block by block. SHA-256 is the record `Sha`.
use netdisk.Prelude.{
  ℕ, zero, suc, ◌≡◌, ◌↔◌, ap, sym, ◌∙◌, Bool, true, List, [], ◌∷◌, ◌++◌, take, drop,
}
use netdisk.Wire.{Text, text_eq, text_eq_self, text_eq-eq}
use netdisk.Token.Hex.{string_to_hex}
use netdisk.Transfer.Bytes.{take-drop}

-- `SHA256_Init`, `SHA256_Update` and `SHA256_Final`, and that updates with two texts one after the other are an
-- update with both joined
pub record Sha : Type 1 where
  pub Context : Type 0
  pub init : Context
  pub update : Context → Text → Context
  pub final : Context → Text
  pub update-append : (c : Context) (a b : Text) → update (update c a) b ≡ update c (a ++ b)
  pub update_nothing : (c : Context) → update c [] ≡ c

module _ (sha : Sha) where
  open sha use {Context, init, update, final, update-append, update_nothing}

  -- `while ((bytesRead = read(...)) > 0)`: `reads` are the sizes that the calls of `read` return, 0 at the end of
  -- the file and no more than is left
  unfoldable pub update_blocks : List ℕ → Text → Context → Context
  update_blocks [] file c = c
  update_blocks (zero ∷ reads) file c = c
  update_blocks (suc n ∷ reads) file c =
      update_blocks reads (drop (suc n) file) (update c (take (suc n) file))

  unfoldable pub generate_digest : (reads : List ℕ) → (file : Text) → Text
  unfolding update_blocks
  generate_digest reads file = string_to_hex (final (update_blocks reads file init))

  unfoldable pub match_digest : (reads : List ℕ) → (file : Text) → (digest : Text) → Bool
  match_digest reads file digest = text_eq digest (generate_digest reads file)

  -- The reads go to the end of the file.
  abbrev pub WholeFile : List ℕ → Text → Type 0
  WholeFile [] file = file ≡ []
  WholeFile (zero ∷ reads) file = file ≡ []
  WholeFile (suc n ∷ reads) file = WholeFile reads (drop (suc n) file)

  update_blocks-update :
      (reads : List ℕ) (file : Text) (c : Context)
      → WholeFile reads file
      → update_blocks reads file c ≡ update c file
  unfolding update_blocks
  update_blocks-update [] file c whole = sym (update_nothing c) ∙ ap (update c) (sym whole)
  update_blocks-update (zero ∷ reads) file c whole =
      sym (update_nothing c) ∙ ap (update c) (sym whole)
  update_blocks-update (suc n ∷ reads) file c whole =
      update_blocks-update reads (drop (suc n) file) (update c (take (suc n) file)) whole
      ∙ update-append c (take (suc n) file) (drop (suc n) file)
      ∙ ap (update c) (take-drop (suc n) file)

  digest-whole :
      (reads : List ℕ) (file : Text)
      → WholeFile reads file
      → generate_digest reads file ≡ string_to_hex (final (update init file))
  unfolding generate_digest
  digest-whole reads file whole =
      ap (λ c. string_to_hex (final c)) (update_blocks-update reads file init whole)

  -- The digest of a file is the hash of its bytes in hexadecimal, in whatever blocks `read` returns the whole file; so a
  -- file matches a digest exactly when the digest was made of that file, or of one with the same hash.
  pub match_digest-generate_digest :
      (reads reads' : List ℕ) (file file' : Text)
      → WholeFile reads file
      → WholeFile reads' file'
      → (generate_digest reads file ≡ string_to_hex (final (update init file)))
        × (match_digest reads file (generate_digest reads' file') ≡ true ↔ (
            string_to_hex (final (update init file')) ≡ string_to_hex (final (update init file))))
  unfolding match_digest
  match_digest-generate_digest reads reads' file file' whole whole' =
      let a = digest-whole reads file whole in
      let b = digest-whole reads' file' whole' in
      (
        a,
        (
          (λ t. sym b ∙ text_eq-eq _ _ t ∙ a),
          (λ e.
              ap (λ x. text_eq x (generate_digest reads file)) (b ∙ e ∙ sym a)
              ∙ text_eq_self (generate_digest reads file)),
        ),
      )
