-- ===== src/ImageGc/Tests.antt =====
-- The garbage collection on concrete hosts (crates/pier-core/src/docker/image_gc.rs).
use pier.Base.{
  Text, Bool, true, false, none, some, List, [], ◌∷◌, codes, text_eq, to_ascii_lowercase, ◌≡◌, refl,
  if◌then◌else◌, pos, negsuc, is_whitespace,
}
use pier.ImageGc.Compose.{compose_image_refs}
use pier.ImageGc.Protected.{Service}
use pier.ImageGc.Scan.{Image, Docker, remove_orphan_images}

abbrev stale : Image
stale = record {
  id = codes "sha256:1";
  repo_tags = codes "pier-web:abc" ∷ [];
  size = pos 900;
  shared_size = pos 200;
}

abbrev database_image : Image
database_image = record {
  id = codes "sha256:2";
  repo_tags = codes "postgres:16" ∷ [];
  size = pos 400;
  shared_size = negsuc 0;
}

abbrev host_images : List Image
host_images = stale ∷ database_image ∷ []

abbrev shop : Service
shop = record {
  name = codes "My Shop";
  image = none;
  previous_image_tag = none;
  compose_content = some (codes "services:\n  db:\n    image: postgres:16\n");
}

-- The ids that are there.
abbrev Host : Type 0
Host = Text → Bool

abbrev has : Text → Host → Bool
has id host = host id

abbrev without : Text → Host → Host
without id host other = if text_eq other id then false else host other

abbrev daemon : Docker Host
daemon = record {
  list_images = λ host. some host_images;
  list_containers = λ host. some [];
  remove_image = λ id host. (none, without id host);
}

abbrev full : Host
full id = true

-- The image of the shop that was built before goes, with the bytes that are its own.
shop_test :
    (remove_orphan_images to_ascii_lowercase daemon (some (shop ∷ [])) full).0
    ≡ some (record { removed = 1; reclaimed = 700; errors = [] })
unfolding remove_orphan_images is_whitespace to_ascii_lowercase
shop_test = refl

-- A comment behind the name hides it.
commented_test :
    compose_image_refs (codes "services:\n  db:\n    image: postgres:16 # pinned\n")
    ≡ codes "postgres:16 # pinned" ∷ []
unfolding compose_image_refs is_whitespace
commented_test = refl
