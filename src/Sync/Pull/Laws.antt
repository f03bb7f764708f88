-- ===== src/Sync/Pull/Laws.antt =====
-- What a download that succeeds has done: the pages form the Cloud's chain from the first to the
-- last, and every face template of theirs has reached the local service.
use facenox.Base.{Bool, [], ◌∷◌, ◌++◌, String}
use facenox.Base.Keys.{string_eq}
use facenox.Sync.Policy.{PolicyState}
use facenox.Sync.Upload.{Acknowledgements}
use facenox.Sync.Pull.{Page, Round, PullState, import_faces, continue_after, ask}
use facenox.Sync.Pull.Chain.{Chain}

module _ (decrypts : String → String → Bool) (key : String) (acks : Acknowledgements) where
  -- The state in which the faces of a page are imported.
  abbrev at_page : Page → PolicyState → PullState → PullState
  at_page p policy s = record (ask decrypts key acks s) {
    pages = s.pages ++ p ∷ [];
    policy = policy;
  }

  abbrev after_page : Round → Page → PolicyState → PullState → PullState
  after_page r p policy s =
      continue_after p
        (import_faces decrypts key acks r.faces p.face_embeddings (at_page p policy s))
