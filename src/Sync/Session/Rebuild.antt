-- ===== src/Sync/Session/Rebuild.antt =====
-- What a batch holds that is built again, after the Cloud has rejected one.
use facenox.Base.{◌≡◌, false, List, ◌++◌, some, String, length, take, drop}
use facenox.Base.Keys.{string_eq}
use facenox.Sync.Chunks.{Chunk, remaining_tables, Row}
use facenox.Sync.Chunks.Pack.{tagged}
use facenox.Sync.Chunks.Build.{sent}
use facenox.Sync.Chunks.Parts.{tables_of}
use facenox.Sync.Upload.{Acknowledgements, PendingUpload}
use facenox.Sync.Session.{Connection, Run, Export, is_foreign, source_tables, exported_faces}

-- A batch for this connection that keeps the accepted chunks before its position, and sends exactly
-- the rows of the export that these do not hold unchanged.
pub record Rebuilt (run : Run) (c : Connection) (key : String) (acknowledged : Acknowledgements)
    (accepted : List Chunk) (q : PendingUpload) : Type 0 where
  pub export : Export
  pub faces : List Row
  pub exported : run.export ≡ some export
  pub read : exported_faces key run ≡ some faces
  pub kept : take q.next q.chunks ≡ accepted
  pub order :
      sent (tables_of (drop q.next q.chunks))
      ≡ tagged (remaining_tables accepted (source_tables export faces))
  pub own : is_foreign c q ≡ false
  pub dated : q.exported_at ≡ export.exported_at
  pub fresh : q.rejected ≡ false
  pub carried : q.acknowledged ≡ acknowledged

module _ (run : Run) (c : Connection) (key : String) (acknowledged : Acknowledgements)
    (accepted : List Chunk) where
  abbrev renewed : Export → List Chunk → PendingUpload
  renewed e chunks = record {
    device_id = c.device_id;
    site_id = c.site_id;
    remote_base_url = c.remote_base_url;
    exported_at = e.exported_at;
    chunks = accepted ++ chunks;
    next = length accepted;
    acknowledged = acknowledged;
    rejected = false;
  }
