-- ===== src/Api/Files/Foreign.antt =====
-- The file routes of apps/api/src/handlers.js on what is not a file of the tenant.
use xygo_aec.Base.{none, some, Option, ◌===◌, Bool-cases, inl, inr, eq_of_===, ◌≡◌, ◌≢◌, refl}
use xygo_aec.Audit.{Crypto, Ambient}
use xygo_aec.FileStorage.{StoredFile}
use xygo_aec.Repositories.Mail.{get_file_record_by_id}
use xygo_aec.Api.Gate.{Forbidden, authorize}
use xygo_aec.Api.Files.{
  Storage, FileWorld, FileRequest, Answer, shown, answered, after_gate, complete_found,
  delete_found, own_file, complete_route, delete_route,
}

-- Nothing is changed and no file is shown.
pub record Refuses {S : Type 0} (w : FileWorld S) (result : FileWorld S × Answer) : Type 0 where
  pub same : result.0 ≡ w
  pub hidden : (f : StoredFile) → result.1 ≢ shown f

-- There is no file, or it is another tenant's.
own_file-foreign :
    (q : FileRequest) (found : Option StoredFile)
    → ((f : StoredFile) → found ≡ some f → f.tenant_id ≢ q.tenant_id)
    → own_file q found ≡ none
own_file-foreign q none foreign = refl
own_file-foreign q (some f) foreign = elim (Bool-cases (f.tenant_id === q.tenant_id)) [
  | inl own ↦ absurd (foreign f refl (eq_of_=== f.tenant_id q.tenant_id own))
  | inr other ↦ rw other refl
]

module _ {S : Type 0} (storage : Storage S) (c : Crypto) (a : Ambient) (q : FileRequest)
    (w : FileWorld S) where
  gated_complete :
      (d : Option Forbidden)
      → Refuses w (
          answered storage c a q (after_gate storage c a q d (complete_found storage c a q none)) w)
  unfolding after_gate complete_found
  gated_complete (some denied) = record { same = refl; hidden = λ f e. cc }
  gated_complete none = record { same = refl; hidden = λ f e. cc }

  gated_delete :
      (d : Option Forbidden)
      → Refuses w
          (answered storage c a q (after_gate storage c a q d (delete_found storage c a q none)) w)
  unfolding after_gate delete_found
  gated_delete (some denied) = record { same = refl; hidden = λ f e. cc }
  gated_delete none = record { same = refl; hidden = λ f e. cc }

  -- Where the repository has no file of the path's tenant under the id, be it that there is none or that it
  -- is another tenant's, neither completion nor deletion changes anything, and neither shows a file.
  pub routes-foreign :
      ((f : StoredFile)
        → get_file_record_by_id w.repository q.file_id ≡ some f
        → f.tenant_id ≢ q.tenant_id)
      → Refuses w (complete_route storage c a q w) × Refuses w (delete_route storage c a q w)
  unfolding complete_route delete_route get_file_record_by_id
  routes-foreign foreign = rw (own_file-foreign q _ foreign) (
    gated_complete (authorize (some q.principal) q.tenant_id "file_record" "update"),
    gated_delete (authorize (some q.principal) q.tenant_id "file_record" "delete"),
  )
