-- ===== src/ImageGc/Needed.antt =====
-- Which tags a service needs (`Protected` of crates/pier-core/src/docker/image_gc.rs), described
-- independently.
use pier.Base.{
  contains_char, rsplit_once, sym, Text, Bool, true, false, Option, some, List, [], ◌∷◌, ◌++◌,
  codes, text_eq_iff, is_empty, trim, any, IsRow, any-append, strip_prefix, ◌≡◌, inl, inr, refl, ap,
  arith,
}
use pier.NetHelper.Protocol.{contains_text}
use pier.ImageGc.Compose.{compose_declares_service, compose_image_refs}
use pier.ImageGc.Written.{
  contains_text-append, rsplit_once-none, IsWritten, compose_image_refs-IsWritten,
}
use pier.ImageGc.Declared.{IsDeclared, compose_declares_service-IsDeclared}
use pier.ImageGc.Protected.{
  Service, Protected, repo_of, project_of, project_covers, covers, text_or_empty, column, exact_of,
  projects_of, slug_of, load_protected,
}

strip_prefix_lem : (p s : Text) → strip_prefix p (p ++ s) ≡ some s
strip_prefix_lem [] s = refl
strip_prefix_lem (c ∷ p) s = ground (arith, strip_prefix_lem p s)

-- The row names the image in a column, or in its compose file.
pub data IsNamed (s : Service) (tag : Text) : Type 0 where
  by_image :
      (t : Text)
      → Service.image s ≡ some t
      → is_empty (trim t) ≡ false
      → trim t ≡ tag
      → IsNamed s tag
  by_previous :
      (t : Text)
      → Service.previous_image_tag s ≡ some t
      → is_empty (trim t) ≡ false
      → trim t ≡ tag
      → IsNamed s tag
  by_compose : IsWritten (text_or_empty (Service.compose_content s)) tag → IsNamed s tag

-- A tag is its repository, a colon and a version, or the repository alone.
pub data IsRepository (repo tag : Text) : Type 0 where
  versioned :
      (version : Text)
      → contains_char b':' version ≡ false
      → tag ≡ repo ++ b':' ∷ version
      → IsRepository repo tag
  unversioned : contains_char b':' tag ≡ false → repo ≡ tag → IsRepository repo tag

rsplit_once-last :
    (repo version : Text)
    → contains_char b':' version ≡ false
    → rsplit_once b':' (repo ++ b':' ∷ version) ≡ some (repo, version)
unfolding rsplit_once
rsplit_once-last [] version h = rw (rsplit_once-none version h) refl
rsplit_once-last (c ∷ repo) version h = rw (rsplit_once-last repo version h) refl

repo_of-IsRepository : (repo tag : Text) → IsRepository repo tag → repo_of tag ≡ repo
unfolding repo_of
repo_of-IsRepository repo tag (versioned version h e) =
    rw e (rw (rsplit_once-last repo version h) refl)
repo_of-IsRepository repo tag (unversioned h e) = rw (rsplit_once-none tag h) (sym e)

module _ (to_lowercase : Text → Text) where
  -- The service names the tag or its repository, or compose builds the tag for it.
  pub data IsNeeded (s : Service) (tag : Text) : Type 0 where
    exact : IsNamed s tag → IsNeeded s tag
    repository : (repo : Text) → IsRepository repo tag → IsNamed s repo → IsNeeded s tag
    project :
        is_empty (slug_of to_lowercase (Service.name s)) ≡ false
        → IsRepository (project_of (slug_of to_lowercase (Service.name s))) tag
        → IsNeeded s tag
    part :
        (svc : Text)
        → is_empty (slug_of to_lowercase (Service.name s)) ≡ false
        → IsRepository
            ((project_of (slug_of to_lowercase (Service.name s)) ++ codes "-") ++ svc)
            tag
        → IsDeclared (text_or_empty (Service.compose_content s)) svc
        → IsNeeded s tag

  column_lem :
      (c : Option Text) (t tag : Text)
      → c ≡ some t
      → is_empty (trim t) ≡ false
      → trim t ≡ tag
      → contains_text (column c) tag ≡ true
  column_lem c t tag e f g = rw e (rw f (ground (arith, text_eq_iff (trim t) tag, g)))

  exact_of-IsNamed :
      (s : Service) (tag : Text)
      → IsNamed s tag
      → contains_text (exact_of to_lowercase s) tag ≡ true
  unfolding exact_of
  exact_of-IsNamed s tag h =
      let refs = compose_image_refs (text_or_empty (Service.compose_content s)) in
      let first =
        contains_text-append (column (Service.image s))
          (column (Service.previous_image_tag s) ++ refs) tag in
      let second = contains_text-append (column (Service.previous_image_tag s)) refs tag in
      elim h [
        | by_image t e f g ↦ ground (arith, first, column_lem (Service.image s) t tag e f g)
        | by_previous t e f g ↦
            ground (arith, first, second, column_lem (Service.previous_image_tag s) t tag e f g)
        | by_compose w ↦ ground (
          arith,
          first,
          second,
          compose_image_refs-IsWritten (text_or_empty (Service.compose_content s)) tag w,
        )
      ]

  loaded_exact :
      (services : List Service) (s : Service) (tag : Text)
      → IsRow s services
      → contains_text (exact_of to_lowercase s) tag ≡ true
      → contains_text (Protected.exact (load_protected to_lowercase services)) tag ≡ true
  unfolding load_protected
  loaded_exact [] s tag r h = absurd r
  loaded_exact (x ∷ xs) s tag r h =
      let both =
        contains_text-append (exact_of to_lowercase x)
          (Protected.exact (load_protected to_lowercase xs)) tag in
      elim r [
        | inl same ↦
            ground (arith, both, ap (λ z. contains_text (exact_of to_lowercase z) tag) same, h)
        | inr later ↦ ground (arith, both, loaded_exact xs s tag later h)
      ]

  loaded_projects :
      (p : Text × Text → Bool) (services : List Service) (s : Service)
      → IsRow s services
      → any p (projects_of to_lowercase s) ≡ true
      → any p (Protected.projects (load_protected to_lowercase services)) ≡ true
  unfolding load_protected
  loaded_projects p [] s r h = absurd r
  loaded_projects p (x ∷ xs) s r h =
      let both =
        any-append p (projects_of to_lowercase x)
          (Protected.projects (load_protected to_lowercase xs)) in
      elim r [
        | inl same ↦ ground (arith, both, ap (λ z. any p (projects_of to_lowercase z)) same, h)
        | inr later ↦ ground (arith, both, loaded_projects p xs s later h)
      ]

  project_lem :
      (s : Service) (p : Text × Text → Bool)
      → is_empty (slug_of to_lowercase (Service.name s)) ≡ false
      → p (slug_of to_lowercase (Service.name s), text_or_empty (Service.compose_content s)) ≡ true
      → any p (projects_of to_lowercase s) ≡ true
  unfolding projects_of
  project_lem s p f h = rw f (ground (arith, h))

  project_covers_self :
      (repo slug compose : Text)
      → repo ≡ project_of slug
      → project_covers repo (slug, compose) ≡ true
  unfolding project_covers
  project_covers_self repo slug compose e = ground (arith, text_eq_iff repo (project_of slug), e)

  project_covers_part :
      (repo slug compose svc : Text)
      → repo ≡ (project_of slug ++ codes "-") ++ svc
      → compose_declares_service compose svc ≡ true
      → project_covers repo (slug, compose) ≡ true
  unfolding project_covers
  project_covers_part repo slug compose svc e d =
      let stripped : strip_prefix (project_of slug ++ codes "-") repo ≡ some svc =
        rw e (strip_prefix_lem (project_of slug ++ codes "-") svc) in
      rw stripped (ground (arith, d))

  pub covers-IsNeeded :
      (services : List Service) (s : Service) (tag : Text)
      → IsRow s services
      → IsNeeded s tag
      → covers (load_protected to_lowercase services) tag ≡ true
  unfolding covers
  covers-IsNeeded services s tag r (exact n) =
      ground (arith, loaded_exact services s tag r (exact_of-IsNamed s tag n))
  covers-IsNeeded services s tag r (repository repo split n) =
      let named = loaded_exact services s repo r (exact_of-IsNamed s repo n) in
      rw (repo_of-IsRepository repo tag split) (ground (arith, named))
  covers-IsNeeded services s tag r (project f split) =
      let slug = slug_of to_lowercase (Service.name s) in
      let same = repo_of-IsRepository (project_of slug) tag split in
      let hit = loaded_projects (project_covers (repo_of tag)) services s r (
        project_lem s (project_covers (repo_of tag)) f (
          project_covers_self (repo_of tag) slug (text_or_empty (Service.compose_content s))
            same)) in
      ground (arith, hit)
  covers-IsNeeded services s tag r (part svc f split d) =
      let slug = slug_of to_lowercase (Service.name s) in
      let compose = text_or_empty (Service.compose_content s) in
      let same = repo_of-IsRepository ((project_of slug ++ codes "-") ++ svc) tag split in
      let hit = loaded_projects (project_covers (repo_of tag)) services s r (
        project_lem s (project_covers (repo_of tag)) f (
          project_covers_part (repo_of tag) slug compose svc same
            (compose_declares_service-IsDeclared compose svc d))) in
      ground (arith, hit)
