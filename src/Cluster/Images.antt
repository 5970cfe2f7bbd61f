-- ===== src/Cluster/Images.antt =====
-- cluster/image.go: repository names with their tags, and whether an image answers to one.
pub mod References
use cattle.Prelude.{
  ℕ, suc, ◌+◌, ◌==◌, ltb, Bool, true, false, not, ◌&&◌, ◌||◌, List, [], ◌∷◌, ◌++◌, Option, none,
  some, Text, text, text_eq, has_prefix, contains, split2, split_all, any, keep, length,
  if◌then◌else◌,
}
use cattle.Cluster.Data.{Labels}

-- The fields of types.ImageSummary that the program reads.
pub record Image : Type 0 where
  pub image_id : Text
  pub repo_tags : List Text
  pub repo_digests : List Text
  pub image_labels : Labels

-- The text before and the text after the last byte `k`: strings.LastIndex, and the two slices.
unfoldable pub split_last : ℕ → Text → Option (Text × Text)
split_last k [] = none
split_last k (c ∷ s) = elim (split_last k s) [
  | some (front, back) ↦ some (c ∷ front, back)
  | none ↦ if c == k then some ([], s) else none
]

-- parts[1]
abbrev second : Text × List Text → Text
second (_, p ∷ _) = p
second (_, []) = []

-- ParseRepositoryTag
unfoldable pub parse_repository_tag : Text → Text × Text
unfolding split_last split_all contains any
parse_repository_tag repos =
    if any (λ c. c == b'@') repos
    then ((split_all b'@' repos).0, second (split_all b'@' repos))
    else elim (split_last b':' repos) [
      | none ↦ (repos, [])
      | some (front, tag) ↦ if contains tag (text "/") then (repos, []) else (front, tag)
    ]

-- One `RepoTags` or `RepoDigests` entry.
unfoldable pub reference_matches : Text → Text → Bool → Text → Bool
unfolding parse_repository_tag text_eq
reference_matches repo_name tag match_tag reference =
    let (name, tag') = parse_repository_tag reference in
    (not match_tag && text_eq name repo_name)
    || (text_eq name repo_name && (text_eq tag' tag || text_eq tag []))

-- The identifier, or a prefix of it with more than two bytes.
unfoldable pub id_matches : Text → Text → Bool
unfolding text_eq has_prefix
id_matches id q = text_eq id q || (ltb 2 (length q) && has_prefix id q)

abbrev after_colon : Option (Text × Text) → Text → Bool
after_colon none q = false
after_colon (some (_, rest)) q = id_matches rest q

-- Image.Match
unfoldable pub image_matches : Image → Text → Bool → Bool
unfolding id_matches split2 parse_repository_tag reference_matches any
image_matches image q match_tag =
    id_matches image.image_id q
    || after_colon (split2 image.image_id (text ":")) q
    || any (reference_matches (parse_repository_tag q).0 (parse_repository_tag q).1 match_tag)
        image.repo_tags
    || any (reference_matches (parse_repository_tag q).0 (parse_repository_tag q).1 match_tag)
        image.repo_digests

-- ImageFilterOptions. What `filters.Args` tells: the number of filters, whether labels match the label
-- filters, and the patterns of the reference filter where there is one.
pub record ImageFilterOptions : Type 0 where
  pub show_all : Bool
  pub filter_count : ℕ
  pub matches_labels : Labels → Bool
  pub reference_patterns : Option (List Text)

-- Images.Filter. An image is hidden when its first tag and its first digest are missing or `<none>`.
abbrev pub shows : Text → List Text → Bool
unfolding text_eq
shows hidden [] = false
shows hidden (t ∷ ts) = not (text_eq t hidden)

unfoldable pub include_all : ImageFilterOptions → Image → Bool
unfolding shows
include_all o i =
    o.show_all
    || (shows (text "<none>:<none>") i.repo_tags || shows (text "<none>@<none>") i.repo_digests)

unfoldable pub include_filter : ImageFilterOptions → Image → Bool
include_filter o i = if o.filter_count == 0 then true else o.matches_labels i.image_labels

abbrev pub refers : List Text → Text → Bool
unfolding any text_eq parse_repository_tag
refers patterns name = any (λ p. text_eq name p || text_eq p (parse_repository_tag name).0) patterns

unfoldable pub reference_filter : ImageFilterOptions → Image → Bool
unfolding any refers
reference_filter o i = elim o.reference_patterns [
  | none ↦ true
  | some patterns ↦ any (refers patterns) i.repo_tags || any (refers patterns) i.repo_digests
]

unfoldable pub filter_images : ImageFilterOptions → List Image → List Image
unfolding keep include_all include_filter reference_filter
filter_images o images =
    keep (λ i. include_all o i && include_filter o i && reference_filter o i) images
