-- ===== src/Upload/Storage.antt =====
-- src/modules/upload/domain/file-storage.port.ts: what the use cases rely on of the object storage.
use Prim.Native.String.{String}
use nestjs_modular_monolith.Common.{◌≡◌, ◌≢◌, Option, none}
use nestjs_modular_monolith.Errors.{Result, ok, M}
use nestjs_modular_monolith.Upload.StoredFile.{ObjectFacts}

pub record FileStorage : Type 1 where
  pub Objects : Type 0
  -- Either call may fail; `none` says that no object is stored under the key.
  pub inspect : String → Objects → Result (Option ObjectFacts)
  pub remove : String → M Objects (Unit {0})
  pub remove_gone :
      (k : String) (o : Objects) → (remove k o).0 ≡ ok tt → inspect k (remove k o).1 ≡ ok none
  pub remove_others : (k j : String) (o : Objects) → k ≢ j → inspect j (remove k o).1 ≡ inspect j o
  -- A removal, failed or not, creates nothing.
  pub remove_absent :
      (k j : String) (o : Objects) → inspect j o ≡ ok none → inspect j (remove k o).1 ≡ ok none
