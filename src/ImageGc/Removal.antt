-- ===== src/ImageGc/Removal.antt =====
-- What `remove_orphan_images` (crates/pier-core/src/docker/image_gc.rs) leaves and reports.
use pier.Base.{◌+◌, ◌≤◌, Text, Bool, Option, none, some, List, length, IsRow, ◌≡◌, ◌≢◌}
use pier.ImageGc.Protected.{Service}
use pier.ImageGc.Needed.{IsNeeded}
use pier.ImageGc.Scan.{
  Image, Container, ScannedImage, ImageScan, RemovalSummary, Docker, total_size, orphan_bytes,
}
use pier.ImageGc.Free.{IsTag, IsUsedBy}

module _ (to_lowercase : Text → Text) {D : Type 0} (docker : Docker D) where
  -- The summary counts each image once, and no byte that was not there.
  abbrev pub AddsUp : List ScannedImage → RemovalSummary → RemovalSummary → Type 0
  AddsUp os s r =
      (RemovalSummary.removed r + length (RemovalSummary.errors r)
        ≡ length os + (RemovalSummary.removed s + length (RemovalSummary.errors s)))
      × (RemovalSummary.reclaimed r ≤ total_size os + RemovalSummary.reclaimed s)

  module _ (images : List Image) (containers : List Container) (services : List Service) where
    -- A container uses the image, or a service needs one of its tags.
    pub data IsReferenced (img : Image) : Type 0 where
      used : (c : Container) → IsRow c containers → IsUsedBy img c → IsReferenced img
      needed :
          (s : Service) (t : Text)
          → IsRow s services
          → IsTag t img
          → IsNeeded to_lowercase s t
          → IsReferenced img

    -- The removal of an image leaves the other listed images that have a tag. (It also removes the parents
    -- of the image that have none.)
    abbrev pub LeavesTagged : (Text → D → Bool) → Type 0
    LeavesTagged has =
        (img : Image) (tag id : Text) (d : D)
        → IsRow img images
        → IsTag tag img
        → id ≢ Image.id img
        → has (Image.id img) (Docker.remove_image docker id d).1 ≡ has (Image.id img) d

    -- No two images have one id.
    abbrev pub AreDistinct : Type 0
    AreDistinct = (a b : Image) → IsRow a images → IsRow b images → Image.id a ≡ Image.id b → a ≡ b

  -- What the caller learns: the failure of the scan, or one entry for each orphan.
  abbrev pub Reports : Option ImageScan → Option RemovalSummary → Type 0
  Reports none r = r ≡ none
  Reports (some s) none = ⊥
  Reports (some s) (some r) =
      (RemovalSummary.removed r + length (RemovalSummary.errors r) ≡ length (ImageScan.orphans s))
      × (RemovalSummary.reclaimed r ≤ orphan_bytes s)
