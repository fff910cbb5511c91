-- ===== src/Runner/Images.antt =====
-- runner/internal/pullImage.go and gencontainerid.go: the image of a container and its name.
use alpine_judge.Common.{◌≡◌, refl, Option, none, some, ◌++◌}
use alpine_judge.Common.Results.{IoResult, io_error, io_ok}
use alpine_judge.Common.Text.{Bytes, str}

-- `client.GetImage`: the image, `errdefs.IsNotFound`, or another error.
pub data Query : Type 0 where
  found : Bytes → Query
  missing : Query
  broken : Bytes → Query

-- The images that containerd has, by their references, and its registry.
pub record ImageStore : Type 1 where
  pub Store : Type 0
  pub get_image : Store → Bytes → Query
  pub pull : Store → Bytes → Store × IoResult Bytes

module _ (S : ImageStore) where
  pulled : Bytes → S.Store × IoResult Bytes → S.Store × IoResult Bytes
  pulled name (s, io_error text) =
      (s, io_error (str "failed to pull image " ++ name ++ str ": " ++ text))
  pulled name (s, io_ok image) = (s, io_ok image)

  answered : S.Store → Bytes → Query → S.Store × IoResult Bytes
  unfolding pulled
  answered s name (found image) = (s, io_ok image)
  answered s name missing = pulled name (S.pull s name)
  answered s name (broken text) = (s, io_error text)

  -- `getContainerImage`, with the images after the call.
  unfoldable pub get_container_image : S.Store → Bytes → S.Store × IoResult Bytes
  unfolding answered
  get_container_image s name = answered s name (S.get_image s name)

-- What containerd documents of `Pull`: the image is there afterwards, under its reference.
pub record Pulls (S : ImageStore) : Type 0 where
  pub keeps :
      (s : S.Store) (name image : Bytes)
      → (S.pull s name).1 ≡ io_ok image
      → S.get_image (S.pull s name).0 name ≡ found image

pulled-io_ok :
    (S : ImageStore) (name image : Bytes) (r : S.Store × IoResult Bytes)
    → (pulled S name r).1 ≡ io_ok image
    → (r.1 ≡ io_ok image) × ((pulled S name r).0 ≡ r.0)
unfolding pulled
pulled-io_ok S name image (s, io_ok other) h = (h, refl)
pulled-io_ok S name image (s, io_error text) h = absurd cc

answered-found :
    (S : ImageStore) (s : S.Store) (name image : Bytes) (q : Query)
    → Pulls S
    → S.get_image s name ≡ q
    → (answered S s name q).1 ≡ io_ok image
    → S.get_image (answered S s name q).0 name ≡ found image
unfolding answered
answered-found S s name image (found other) pulls at h =
    let e : other ≡ image = cc in rw (at, e) refl
answered-found S s name image missing pulls at h =
    let (fine, same) = pulled-io_ok S name image (S.pull s name) h in
    rw same (pulls.keeps s name image fine)
answered-found S s name image (broken text) pulls at h = absurd cc

-- Once an image was found or pulled, asking for it again gives the same image, and the images of
-- containerd stay as they are. It holds for a `Pull` that keeps what it returns.
pub get_container_image-cached :
    (S : ImageStore) (s : S.Store) (name image : Bytes)
    → Pulls S
    → (get_container_image S s name).1 ≡ io_ok image
    → let s' = (get_container_image S s name).0 in get_container_image S s' name ≡ (s', io_ok image)
unfolding get_container_image
get_container_image-cached S s name image pulls fine =
    rw (answered-found S s name image (S.get_image s name) pulls refl fine) refl

-- `generateContainerID`, by the generator that `nanoid.CustomASCII` returns, of which the digits are
-- what it generates: there is none with an error, and then the call of `nanoID`, which comes before
-- the check of the error, panics.
unfoldable pub generate_container_id : Option Bytes → Option Bytes
generate_container_id none = none
generate_container_id (some digits) = some (str "ajcont-" ++ digits)
