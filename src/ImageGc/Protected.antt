-- ===== src/ImageGc/Protected.antt =====
-- The names that no garbage collection takes (crates/pier-core/src/docker/image_gc.rs).
use pier.Base.{
  Text, Bool, false, ◌||◌, Option, none, some, List, [], ◌∷◌, ◌++◌, codes, if◌then◌else◌, ◌==◌,
  is_empty, text_eq, trim, any, map, strip_prefix, rsplit_once,
}
use pier.NetHelper.Protocol.{contains_text}
use pier.ImageGc.Compose.{compose_declares_service, compose_image_refs}

-- The columns of `services` that `load_protected` reads.
pub record Service : Type 0 where
  pub name : Text
  pub image : Option Text
  pub previous_image_tag : Option Text
  pub compose_content : Option Text

pub record Protected : Type 0 where
  pub exact : List Text
  pub projects : List (Text × Text)

abbrev left_or : Text → Option (Text × Text) → Text
left_or tag none = tag
left_or tag (some (repo, version)) = repo

-- The repository of a tag.
unfoldable pub repo_of : Text → Text
unfolding rsplit_once
repo_of tag = left_or tag (rsplit_once b':' tag)

abbrev pub project_of : Text → Text
project_of slug = codes "pier-" ++ slug

abbrev pub declares : Text → Option Text → Bool
declares compose none = false
declares compose (some svc) = compose_declares_service compose svc

unfoldable pub project_covers : Text → Text × Text → Bool
unfolding compose_declares_service
project_covers repo (slug, compose) =
    text_eq repo (project_of slug)
    || declares compose (strip_prefix (project_of slug ++ codes "-") repo)

unfoldable pub covers : Protected → Text → Bool
unfolding repo_of project_covers
covers p tag =
    contains_text (Protected.exact p) tag
    || contains_text (Protected.exact p) (repo_of tag)
    || any (project_covers (repo_of tag)) (Protected.projects p)

abbrev pub text_or_empty : Option Text → Text
text_or_empty none = []
text_or_empty (some s) = s

abbrev pub column : Option Text → List Text
column none = []
column (some tag) = if is_empty (trim tag) then [] else trim tag ∷ []

abbrev dashes : Text → Text
dashes s = map (λ c. if c == 32 then b'-' else c) s

module _ (to_lowercase : Text → Text) where
  -- `name.to_lowercase().replace(' ', "-")`
  abbrev pub slug_of : Text → Text
  slug_of name = dashes (to_lowercase name)

  -- The exact names that a row adds.
  unfoldable pub exact_of : Service → List Text
  unfolding compose_image_refs trim
  exact_of s =
      column (Service.image s)
      ++ column (Service.previous_image_tag s)
      ++ compose_image_refs (text_or_empty (Service.compose_content s))

  unfoldable pub projects_of : Service → List (Text × Text)
  projects_of s =
      let slug = slug_of (Service.name s) in
      if is_empty slug then [] else (slug, text_or_empty (Service.compose_content s)) ∷ []

  unfoldable pub load_protected : List Service → Protected
  unfolding exact_of projects_of
  load_protected [] = record { exact = []; projects = [] }
  load_protected (s ∷ services) =
      let rest = load_protected services in
      record {
        exact = exact_of s ++ Protected.exact rest;
        projects = projects_of s ++ Protected.projects rest;
      }
