-- ===== src/Api/Files.antt =====
-- web/src/api.ts: the files of a deployed app. Every change is a commit, which the reply names.
use marshal_pm.Base.{
  ℕ, Option, some, List, [], ◌∷◌, ◌++◌, Text, codes, decimal, or_else, if◌then◌else◌, Outcome,
  returned, threw, ◌>>=◌,
}
use marshal_pm.Uri.{encode, search_params}
use marshal_pm.Api.Types.{DirListing, FileContent, CommitResult}
use marshal_pm.Api.Http.{
  Json, str, post, put, delete, Response, Fetch, get_request, send, object, is_ok, is_status,
  nullish, unauthorized,
}

-- `/api/fleet/${agent}/apps/${app}`.
abbrev app_url : (agent app : Text) → Outcome Text
app_url agent app = do
  a ← encode agent
  p ← encode app
  returned (codes "/api/fleet/" ++ (a ++ (codes "/apps/" ++ p)))

-- `${what} failed (${status})`.
unfoldable pub failed_status : Text → ℕ → Text
failed_status what n = what ++ (codes " failed (" ++ (decimal n ++ codes ")"))

-- The message of the body, or the status where it has none, an empty one, or is no JSON.
abbrev failure : {A : Type 0} → Text → Response A → Text
failure what r =
    or_else (elim r.error_field [ returned e ↦ nullish e [] | threw _ ↦ [] ])
      (failed_status what r.status)

-- What each of the calls makes of its reply.
unfoldable pub read_file_reply : {A : Type 0} → Text → Response A → Outcome A
read_file_reply what r =
    if is_status 401 r
    then threw unauthorized
    else if is_ok r
    then r.json
    else threw (failure what r)

abbrev path_query : Text → Text
path_query path = search_params ((codes "path", path) ∷ [])

module _ {N : Type 0} where
  abbrev commit_body : List (Text × Json N) → Text → Option Text → Option (Json N)
  commit_body content message credential = some (
      object (
        content
        ++ ((codes "message", str message)
            ∷ (codes "credential", str (or_else (nullish credential []) []))
            ∷ [])))

  unfoldable pub list_dir : Fetch N DirListing → (agent app path : Text) → Outcome DirListing
  unfolding read_file_reply
  list_dir fetch agent app path = do
    base ← app_url agent app
    r ← fetch (get_request (base ++ (codes "/dir?" ++ path_query path)))
    read_file_reply (codes "dir") r

  unfoldable pub read_file : Fetch N FileContent → (agent app path : Text) → Outcome FileContent
  unfolding read_file_reply
  read_file fetch agent app path = do
    base ← app_url agent app
    r ← fetch (get_request (base ++ (codes "/file?" ++ path_query path)))
    read_file_reply (codes "file") r

  unfoldable pub write_file :
      Fetch N CommitResult
      → (agent app path content message : Text) → Option Text
      → Outcome CommitResult
  unfolding read_file_reply
  write_file fetch agent app path content message credential = do
    base ← app_url agent app
    r ← fetch (
        send put (base ++ (codes "/file?" ++ path_query path))
          (commit_body ((codes "content", str content) ∷ []) message credential))
    read_file_reply (codes "save") r

  -- As `write_file`, with `create=1`, so that the server refuses a path that exists.
  unfoldable pub create_file :
      Fetch N CommitResult
      → (agent app path content message : Text) → Option Text
      → Outcome CommitResult
  unfolding read_file_reply
  create_file fetch agent app path content message credential = do
    base ← app_url agent app
    let q = search_params ((codes "path", path) ∷ (codes "create", codes "1") ∷ [])
    r ← fetch (
        send put (base ++ (codes "/file?" ++ q))
          (commit_body ((codes "content", str content) ∷ []) message credential))
    read_file_reply (codes "save") r

  unfoldable pub delete_file :
      Fetch N CommitResult → (agent app path message : Text) → Option Text → Outcome CommitResult
  unfolding read_file_reply
  delete_file fetch agent app path message credential = do
    base ← app_url agent app
    r ← fetch (
        send delete (base ++ (codes "/file?" ++ path_query path))
          (commit_body [] message credential))
    read_file_reply (codes "delete") r

  unfoldable pub rename_file :
      Fetch N CommitResult → (agent app from to message : Text) → Option Text → Outcome CommitResult
  unfolding read_file_reply
  rename_file fetch agent app from to message credential = do
    base ← app_url agent app
    r ← fetch (
        send post (base ++ codes "/rename")
          (commit_body ((codes "from", str from) ∷ (codes "to", str to) ∷ []) message credential))
    read_file_reply (codes "rename") r

unfoldable pub file_download_url : (agent app path : Text) → Outcome Text
file_download_url agent app path = do
  base ← app_url agent app
  let q = search_params ((codes "path", path) ∷ (codes "raw", codes "1") ∷ [])
  returned (base ++ (codes "/file?" ++ q))
