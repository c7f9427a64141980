-- ===== src/ImageGc/Scan.antt =====
-- The scan of the images and the removal of the orphans (crates/pier-core/src/docker/image_gc.rs).
use pier.Base.{
  ℕ, ◌+◌, ◌-◌, Text, Bool, not, ◌&&◌, ◌||◌, Option, none, some, List, [], ◌∷◌, ◌++◌, codes,
  if◌then◌else◌, leb, text_eq, contains_char, any, keep, ℤ, pos, negsuc,
}
use pier.NetHelper.Protocol.{contains_text}
use pier.ImageGc.Protected.{Service, Protected, covers, load_protected}

-- What Docker lists.
pub record Image : Type 0 where
  pub id : Text
  pub repo_tags : List Text
  pub size : ℤ
  pub shared_size : ℤ

pub record Container : Type 0 where
  pub image_id : Option Text
  pub image : Option Text

pub record ScannedImage : Type 0 where
  pub id : Text
  pub name : Text
  pub size : ℕ

pub record ImageScan : Type 0 where
  pub dangling : List ScannedImage
  pub orphans : List ScannedImage

abbrev pub total_size : List ScannedImage → ℕ
total_size [] = 0
total_size (i ∷ is) = ScannedImage.size i + total_size is

unfoldable pub dangling_bytes : ImageScan → ℕ
dangling_bytes s = total_size (ImageScan.dangling s)

unfoldable pub orphan_bytes : ImageScan → ℕ
orphan_bytes s = total_size (ImageScan.orphans s)

pub record RemovalSummary : Type 0 where
  pub removed : ℕ
  pub reclaimed : ℕ
  pub errors : List Text

-- The bare name with the version that it means.
abbrev pub latest_of : Text → List Text
latest_of image =
    if not (contains_char b':' image) && not (contains_char b'@' image)
    then (image ++ codes ":latest") ∷ []
    else []

abbrev pub id_of : Option Text → List Text
id_of none = []
id_of (some id) = id ∷ []

abbrev pub name_of : Option Text → List Text
name_of none = []
name_of (some image) = image ∷ latest_of image

-- What a container pins.
unfoldable pub pins : Container → List Text
pins c = id_of (Container.image_id c) ++ name_of (Container.image c)

unfoldable pub in_use : List Container → List Text
unfolding pins
in_use [] = []
in_use (c ∷ cs) = pins c ++ in_use cs

-- The sizes are far from the bounds of 64 bits, so the difference does not wrap.
unfoldable pub unique_size : ℤ → ℤ → ℕ
unique_size (pos n) (negsuc k) = n
unique_size (pos n) (pos s) = n - s
unique_size (negsuc n) shared = 0

unfoldable pub tags_of : Image → List Text
tags_of img = keep (λ t. not (text_eq t (codes "<none>:<none>"))) (Image.repo_tags img)

unfoldable pub scanned : Image → Text → ScannedImage
unfolding unique_size
scanned img name = record {
  id = Image.id img;
  name = name;
  size = unique_size (Image.size img) (Image.shared_size img);
}

module _ (used : List Text) (protected : Protected) where
  abbrev pub is_kept : Image → List Text → Bool
  is_kept img tags =
      contains_text used (Image.id img)
      || any (contains_text used) tags
      || any (covers protected) tags

  -- One round of the loop, before the images that follow.
  abbrev pub add_image : Image → List Text → ImageScan → ImageScan
  add_image img [] rest = record {
    dangling = scanned img (codes "<none>:<none>") ∷ ImageScan.dangling rest;
    orphans = ImageScan.orphans rest;
  }
  add_image img (tag ∷ tags) rest = record {
    dangling = ImageScan.dangling rest;
    orphans =
        if is_kept img (tag ∷ tags)
        then ImageScan.orphans rest
        else scanned img tag ∷ ImageScan.orphans rest;
  }

  unfoldable pub classify : List Image → ImageScan
  unfolding tags_of covers scanned
  classify [] = record { dangling = []; orphans = [] }
  classify (img ∷ images) = add_image img (tags_of img) (classify images)

-- `sort_by_key(|a| Reverse(a.size))`, which is stable.
abbrev pub insert_sized : ScannedImage → List ScannedImage → List ScannedImage
insert_sized x [] = x ∷ []
insert_sized x (y ∷ ys) =
    if leb (ScannedImage.size y) (ScannedImage.size x) then x ∷ y ∷ ys else y ∷ insert_sized x ys

abbrev pub sort_sized : List ScannedImage → List ScannedImage
sort_sized [] = []
sort_sized (x ∷ xs) = insert_sized x (sort_sized xs)

abbrev pub sorted : ImageScan → ImageScan
sorted s = record {
  dangling = sort_sized (ImageScan.dangling s);
  orphans = sort_sized (ImageScan.orphans s);
}

-- Docker: its lists, each of which may fail, and the removal, which has no answer when it succeeds and a
-- message when it does not.
pub record Docker (D : Type 0) : Type 0 where
  pub list_images : D → Option (List Image)
  pub list_containers : D → Option (List Container)
  pub remove_image : Text → D → Option Text × D

abbrev both : {A B : Type 0} → Option A → Option B → Option (A × B)
both none b = none
both (some a) none = none
both (some a) (some b) = some (a, b)

module _ (to_lowercase : Text → Text) where
  -- The scan of what was listed.
  unfoldable pub scan_lists : List Image → List Container → List Service → ImageScan
  unfolding classify in_use load_protected
  scan_lists images containers services =
      sorted (classify (in_use containers) (load_protected to_lowercase services) images)

  module _ {D : Type 0} (docker : Docker D) where
    abbrev scan_all :
        Option (List Image × List Container) → Option (List Service) → Option ImageScan
    scan_all (some (images, containers)) (some services) =
        some (scan_lists images containers services)
    scan_all (some lists) none = none
    scan_all none services = none

    -- `services` is the answer of the database.
    unfoldable pub scan : Option (List Service) → D → Option ImageScan
    unfolding scan_lists
    scan services d =
        scan_all (both (Docker.list_images docker d) (Docker.list_containers docker d)) services

    abbrev pub count : ScannedImage → Option Text → RemovalSummary → RemovalSummary
    count image none s = record {
      removed = RemovalSummary.removed s + 1;
      reclaimed = RemovalSummary.reclaimed s + ScannedImage.size image;
      errors = RemovalSummary.errors s;
    }
    count image (some e) s = record {
      removed = RemovalSummary.removed s;
      reclaimed = RemovalSummary.reclaimed s;
      errors = RemovalSummary.errors s ++ (ScannedImage.name image ++ codes ": " ++ e) ∷ [];
    }

    unfoldable pub remove_all : List ScannedImage → RemovalSummary → D → RemovalSummary × D
    remove_all [] s d = (s, d)
    remove_all (image ∷ images) s d =
        let (answer, d') = Docker.remove_image docker (ScannedImage.id image) d in
        remove_all images (count image answer s) d'

    abbrev pub remove_scanned : Option ImageScan → D → Option RemovalSummary × D
    remove_scanned none d = (none, d)
    remove_scanned (some s) d =
        let (summary, d') =
          remove_all (ImageScan.orphans s) (record { removed = 0; reclaimed = 0; errors = [] }) d in
        (some summary, d')

    unfoldable pub remove_orphan_images : Option (List Service) → D → Option RemovalSummary × D
    unfolding scan remove_all
    remove_orphan_images services d = remove_scanned (scan services d) d
