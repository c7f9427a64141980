-- ===== src/ImageGc/Free.antt =====
-- What an orphan is (`scan` of crates/pier-core/src/docker/image_gc.rs), described independently.
use pier.Base.{
  not, text_eq, text_eq_iff, keep-IsRow, kept-IsRow, Bool-cases, ◌≢◌, Text, Bool, true, false, ◌||◌,
  some, List, [], ◌∷◌, ◌++◌, codes, contains_char, any, any-IsRow, IsRow, ◌≡◌, ◌⊎◌, inl, inr, refl,
  sym, subst, ap, arith, leb, both_branches,
}
use pier.NetHelper.Protocol.{contains_text}
use pier.ImageGc.Protected.{Service, Protected, covers, load_protected}
use pier.ImageGc.Needed.{IsNeeded, covers-IsNeeded}
use pier.ImageGc.Written.{text_eq_refl, contains_text-append}
use pier.ImageGc.Scan.{
  Image, Container, ScannedImage, ImageScan, id_of, name_of, pins, in_use, unique_size, tags_of,
  scanned, is_kept, add_image, classify, insert_sized, sort_sized, scan_lists,
}

-- A tag of the image; `<none>:<none>` is Docker's name for no tag.
abbrev pub IsTag : Text → Image → Type 0
IsTag t img = IsRow t (Image.repo_tags img) × (t ≢ codes "<none>:<none>")

tags_of-IsTag : (t : Text) (img : Image) → IsTag t img → IsRow t (tags_of img)
unfolding tags_of
tags_of-IsTag t img (row, proper) =
    keep-IsRow (λ x. not (text_eq x (codes "<none>:<none>"))) t (Image.repo_tags img) row
      (elim (Bool-cases (text_eq t (codes "<none>:<none>"))) [
        | inl e ↦ absurd (proper ((text_eq_iff t (codes "<none>:<none>")).0 e))
        | inr e ↦ rw e refl
      ])

IsTag-tags_of : (t : Text) (img : Image) → IsRow t (tags_of img) → IsTag t img
unfolding tags_of
IsTag-tags_of t img r =
    let (row, p) =
      kept-IsRow (λ x. not (text_eq x (codes "<none>:<none>"))) t (Image.repo_tags img) r in
    (row, λ e. absurd (ground (arith, p, (text_eq_iff t (codes "<none>:<none>")).1 e)))

-- A container was made from the image.
pub data IsUsedBy (img : Image) (c : Container) : Type 0 where
  by_id : Container.image_id c ≡ some (Image.id img) → IsUsedBy img c
  by_name : (n : Text) → Container.image c ≡ some n → IsTag n img → IsUsedBy img c
  by_latest :
      (n : Text)
      → Container.image c ≡ some n
      → contains_char b':' n ≡ false
      → contains_char b'@' n ≡ false
      → IsTag (n ++ codes ":latest") img
      → IsUsedBy img c

-- A name stands among those in use, which is enough to keep the image.
pub is_used : List Text → Image → Bool
is_used used img = contains_text used (Image.id img) || any (contains_text used) (tags_of img)

pinned :
    (cs : List Container) (c : Container) (name : Text)
    → IsRow c cs
    → contains_text (pins c) name ≡ true
    → contains_text (in_use cs) name ≡ true
unfolding in_use
pinned [] c name r h = absurd r
pinned (x ∷ xs) c name r h =
    let both = contains_text-append (pins x) (in_use xs) name in
    elim r [
      | inl same ↦ ground (arith, both, ap (λ z. contains_text (pins z) name) same, h)
      | inr later ↦ ground (arith, both, pinned xs c name later h)
    ]

pins-id :
    (c : Container) (id : Text) → Container.image_id c ≡ some id → contains_text (pins c) id ≡ true
unfolding pins
pins-id c id e = rw e (ground (arith, text_eq_refl id))

pins-name :
    (c : Container) (n : Text) → Container.image c ≡ some n → contains_text (pins c) n ≡ true
unfolding pins
pins-name c n e =
    let here : contains_text (name_of (Container.image c)) n ≡ true =
      rw e (ground (arith, text_eq_refl n)) in
    ground (
      arith,
      here,
      contains_text-append (id_of (Container.image_id c)) (name_of (Container.image c)) n,
    )

pins-latest :
    (c : Container) (n : Text)
    → Container.image c ≡ some n
    → contains_char b':' n ≡ false
    → contains_char b'@' n ≡ false
    → contains_text (pins c) (n ++ codes ":latest") ≡ true
unfolding pins
pins-latest c n e f g =
    let latest = n ++ codes ":latest" in
    let here : contains_text (name_of (Container.image c)) latest ≡ true =
      rw e (rw f (rw g (ground (arith, text_eq_refl latest)))) in
    ground (
      arith,
      here,
      contains_text-append (id_of (Container.image_id c)) (name_of (Container.image c)) latest,
    )

in_use-IsUsedBy :
    (cs : List Container) (c : Container) (img : Image)
    → IsRow c cs
    → IsUsedBy img c
    → is_used (in_use cs) img ≡ true
unfolding is_used
in_use-IsUsedBy cs c img r (by_id e) =
    ground (arith, pinned cs c (Image.id img) r (pins-id c (Image.id img) e))
in_use-IsUsedBy cs c img r (by_name n e t) = ground (
  arith,
  any-IsRow (contains_text (in_use cs)) n (tags_of img) (tags_of-IsTag n img t)
      (pinned cs c n r (pins-name c n e)),
)
in_use-IsUsedBy cs c img r (by_latest n e f g t) = ground (
  arith,
  any-IsRow (contains_text (in_use cs)) (n ++ codes ":latest") (tags_of img)
      (tags_of-IsTag (n ++ codes ":latest") img t)
      (pinned cs c (n ++ codes ":latest") r (pins-latest c n e f g)),
)

module _ (to_lowercase : Text → Text) (images : List Image) (containers : List Container)
    (services : List Service) where
  -- An image that is listed and tagged, that no container uses and of which no service needs a tag.
  pub record IsOrphan (o : ScannedImage) : Type 0 where
    pub img : Image
    pub row : IsRow img images
    pub same_id : ScannedImage.id o ≡ Image.id img
    pub own_size : ScannedImage.size o ≡ unique_size (Image.size img) (Image.shared_size img)
    pub tagged : IsTag (ScannedImage.name o) img
    pub unused : (c : Container) → IsRow c containers → IsUsedBy img c → ⊥
    pub unneeded :
        (s : Service) (t : Text) → IsRow s services → IsTag t img → IsNeeded to_lowercase s t → ⊥

  abbrev used : List Text
  used = in_use containers

  abbrev protected : Protected
  protected = load_protected to_lowercase services

  scanned-IsOrphan :
      (img : Image) (tag : Text) (tags : List Text)
      → IsRow img images
      → tags_of img ≡ tag ∷ tags
      → is_kept used protected img (tag ∷ tags) ≡ false
      → IsOrphan (scanned img tag)
  unfolding is_used scanned
  scanned-IsOrphan img tag tags r e f =
      let whole : is_kept used protected img (tags_of img) ≡ false = rw e f in
      record {
        img = img;
        row = r;
        same_id = refl;
        own_size = refl;
        tagged = IsTag-tags_of tag img (rw e (inl refl));
        unused = λ c rc u. absurd (ground (arith, whole, in_use-IsUsedBy containers c img rc u));
        unneeded = λ s t rs rt n. absurd (
            ground (
              arith,
              whole,
              any-IsRow (covers protected) t (tags_of img) (tags_of-IsTag t img rt)
                  (covers-IsNeeded to_lowercase services s t rs n),
            ));
      }

  AreOrphans : List ScannedImage → Type 0
  AreOrphans os = (o : ScannedImage) → IsRow o os → IsOrphan o

  add_image-AreOrphans :
      (img : Image) (tags : List Text) (rest : ImageScan)
      → IsRow img images
      → tags_of img ≡ tags
      → AreOrphans (ImageScan.orphans rest)
      → AreOrphans (ImageScan.orphans (add_image used protected img tags rest))
  unfolding AreOrphans
  add_image-AreOrphans img [] rest r e h = h
  add_image-AreOrphans img (tag ∷ tags) rest r e h =
      both_branches AreOrphans (is_kept used protected img (tag ∷ tags)) (ImageScan.orphans rest)
        (scanned img tag ∷ ImageScan.orphans rest) (λ kept. h)
        (λ free o row. elim row [
          | inl same ↦ subst IsOrphan (sym same) (scanned-IsOrphan img tag tags r e free)
          | inr later ↦ h o later
        ])

  classify-AreOrphans :
      (rest : List Image)
      → ((img : Image) → IsRow img rest → IsRow img images)
      → AreOrphans (ImageScan.orphans (classify used protected rest))
  unfolding classify AreOrphans
  classify-AreOrphans [] sub = λ o r. absurd r
  classify-AreOrphans (img ∷ rest) sub =
      add_image-AreOrphans img (tags_of img) (classify used protected rest) (sub img (inl refl))
        refl (classify-AreOrphans rest (λ i r. sub i (inr r)))

  insert_sized-IsRow :
      (x o : ScannedImage) (xs : List ScannedImage)
      → IsRow o (insert_sized x xs)
      → (o ≡ x) ⊎ IsRow o xs
  insert_sized-IsRow x o [] = λ r. r
  insert_sized-IsRow x o (y ∷ ys) =
      both_branches (λ zs. IsRow o zs → (o ≡ x) ⊎ IsRow o (y ∷ ys))
        (leb (ScannedImage.size y) (ScannedImage.size x)) (x ∷ y ∷ ys) (y ∷ insert_sized x ys)
        (λ e r. r)
        (λ e r. elim r [
          | inl same ↦ inr (inl same)
          | inr later ↦ elim (insert_sized-IsRow x o ys later) [
            | inl same ↦ inl same
            | inr below ↦ inr (inr below)
          ]
        ])

  sort_sized-IsRow :
      (o : ScannedImage) (xs : List ScannedImage) → IsRow o (sort_sized xs) → IsRow o xs
  sort_sized-IsRow o [] r = r
  sort_sized-IsRow o (x ∷ xs) r = elim (insert_sized-IsRow x o (sort_sized xs) r) [
    | inl e ↦ inl e
    | inr later ↦ inr (sort_sized-IsRow o xs later)
  ]

  pub scan_lists-IsOrphan :
      (o : ScannedImage)
      → IsRow o (ImageScan.orphans (scan_lists to_lowercase images containers services))
      → IsOrphan o
  unfolding scan_lists
  scan_lists-IsOrphan o r =
      unfold AreOrphans in
      classify-AreOrphans images (λ img i. i) o
        (sort_sized-IsRow o (ImageScan.orphans (classify used protected images)) r)
