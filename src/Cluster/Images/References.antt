-- ===== src/Cluster/Images/References.antt =====
-- ParseRepositoryTag on a name, a colon and a tag.
use cattle.Prelude.{
  ℕ, ◌==◌, ◌≡◌, ◌≢◌, refl, ◌∙◌, Bool, false, [], ◌∷◌, ◌++◌, none, some, Text, contains, any,
  has_prefix, All, arith, ◌||◌,
}
use cattle.Cluster.Images.{split_last, parse_repository_tag}

-- No byte of the text is `k`.
abbrev pub Without : ℕ → Text → Type 0
Without k = All (λ c. c ≢ k)

split_last-none : (k : ℕ) (s : Text) → Without k s → split_last k s ≡ none
unfolding split_last
split_last-none k [] h = refl
split_last-none k (c ∷ s) h = rw (split_last-none k s h.1) (ground arith)

split_last_lem :
    (k : ℕ) (front back : Text)
    → Without k back
    → split_last k (front ++ k ∷ back) ≡ some (front, back)
unfolding split_last
split_last_lem k [] back h = rw (split_last-none k back h) (ground arith)
split_last_lem k (c ∷ front) back h = rw (split_last_lem k front back h)

any-Without : (k : ℕ) (s : Text) → Without k s → any (λ c. c == k) s ≡ false
unfolding any
any-Without k [] h = refl
any-Without k (c ∷ s) h = ground (arith, any-Without k s h.1)

pub any_none-Without : (k : ℕ) (s : Text) → any (λ c. c == k) s ≡ false → Without k s
unfolding any
any_none-Without k [] h = tt
any_none-Without k (c ∷ s) h = (λ e. ground arith, any_none-Without k s (ground arith))

any-append : (p : ℕ → Bool) (s t : Text) → any p (s ++ t) ≡ (any p s || any p t)
unfolding any
any-append p [] t = refl
any-append p (c ∷ s) t = ground (arith, any-append p s t)

contains-Without : (k : ℕ) (s : Text) → Without k s → contains s (k ∷ []) ≡ false
unfolding contains has_prefix
contains-Without k [] h = refl
contains-Without k (c ∷ s) h = ground (arith, contains-Without k s h.1)

-- ParseRepositoryTag of a name, a colon and a tag gives the name and the tag, when neither has
-- an `@` and the tag has no colon and no slash.
pub parse_repository_tag_lem :
    (name tag : Text)
    → Without b'@' name
    → Without b'@' tag
    → Without b':' tag
    → Without b'/' tag
    → parse_repository_tag (name ++ b':' ∷ tag) ≡ (name, tag)
unfolding parse_repository_tag any
parse_repository_tag_lem name tag name_at tag_at tag_colon tag_slash =
    let colon_at : any (λ c. c == b'@') (b':' ∷ tag) ≡ false = any-Without b'@' tag tag_at in
    let plain : any (λ c. c == b'@') (name ++ b':' ∷ tag) ≡ false =
      any-append (λ c. c == b'@') name (b':' ∷ tag)
      ∙ rw (any-Without b'@' name name_at, colon_at) refl in
    rw (plain, split_last_lem b':' name tag tag_colon, contains-Without b'/' tag tag_slash) refl
