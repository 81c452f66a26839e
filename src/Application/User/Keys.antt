-- ===== src/Application/User/Keys.antt =====
-- `bookmarkProjectionKey` of packages/application/src/user/readModels.ts.
use Prim.Native.String.{String, ◌∷◌, ◌++◌}
use es_ts_example.Common.{arith, Bool-ext, ◌≡◌, refl, ◌&&◌, ◌==◌, eq_iff, eq_refl}
use text.Mathlib.TextLemmas.{tail-eq_of_cons-eq}
use es_ts_example.Common.Decimal.{show, is_digit, show-append_inj}
use es_ts_example.Common.Utf16.{utf16_length, prefix_of_length}

unfoldable pub bookmark_projection_key : String → String → String
unfolding show utf16_length
bookmark_projection_key user_id article_id =
    show (utf16_length user_id) ++ ":" ∷ (user_id ++ ":" ∷ article_id)

-- No two pairs of a user and an article share a key, whatever characters their ids have.
pub bookmark_projection_key_inj :
    (u v a b : String)
    → bookmark_projection_key u a ≡ bookmark_projection_key v b
    → (u ≡ v) × (a ≡ b)
unfolding bookmark_projection_key is_digit
bookmark_projection_key_inj u v a b e =
    let (lengths, rests) =
      show-append_inj (utf16_length u) (utf16_length v) ":" (u ++ ":" ∷ a) (v ++ ":" ∷ b) refl e in
    let (users, ends) = prefix_of_length u v (":" ∷ a) (":" ∷ b) lengths rests in
    (users, tail-eq_of_cons-eq {x = ":"} {y = ":"} ends)

-- So the test of two keys is the test of both ids.
pub bookmark_projection_key_eq :
    (u v a b : String)
    → (bookmark_projection_key u a == bookmark_projection_key v b) ≡ (u == v && a == b)
bookmark_projection_key_eq u v a b =
    Bool-ext _ _
      (λ h.
        let (p, q) = bookmark_projection_key_inj u v a b ((eq_iff _ _).0 h) in
        rw (p, q, eq_refl v, eq_refl b))
      (λ h.
        let p : u ≡ v = ground (arith, eq_iff u v) in
        let q : a ≡ b = ground (arith, eq_iff a b) in
        rw (p, q) (eq_refl (bookmark_projection_key v b)))
