-- ===== src/Api/Admission.antt =====
-- internal/api/http.go: which requests get through to the node and to the database.
use shard_zero.Prelude.{
  ◌≡◌, ◌≢◌, inl, inr, refl, if◌then◌else◌, Bool, true, false, ◌||◌, not, [], arith, Text, bytes,
  text_eq, text_eq_iff, Bool-cases,
}
use shard_zero.Raft.Node.{Node}
use shard_zero.Raft.Client.{set_paused}
use shard_zero.Api.{Response}
use shard_zero.Api.Handlers.{AdminRequest, admin, paused_answer, status_only}

-- What the handler of the administrator can do: turn a request away with a status that is not 200 and
-- the node as it was, or, for a POST with the token, which is not empty, pause or resume the node.
pub data Guarded (token : Text) (r : AdminRequest) (n : Node) (out : Node × Response) : Type 0 where
  turned_away : out.0 ≡ n → out.1.status ≢ 200 → Guarded token r n out
  admitted :
      token ≢ []
      → r.token ≡ token
      → r.method ≡ bytes "POST"
      → (paused : Bool) → r.path ≡ (if paused then bytes "/admin/pause" else bytes "/admin/resume")
      → out.0 ≡ set_paused n paused
      → out.1.status ≡ 200
      → Guarded token r n out

module _ (token : Text) (r : AdminRequest) (n : Node) (set : token ≢ []) (same : r.token ≡ token)
    (method : r.method ≡ bytes "POST") where
  by_path : Guarded token r n (
      if text_eq r.path (bytes "/admin/pause")
      then paused_answer n true
      else if text_eq r.path (bytes "/admin/resume")
      then paused_answer n false
      else (n, status_only 404))
  by_path = elim (Bool-cases (text_eq r.path (bytes "/admin/pause"))) [
    | inl t ↦
        rw t (
          admitted set same method true ((text_eq_iff r.path (bytes "/admin/pause")).0 t) refl refl)
    | inr f ↦ rw f (elim (Bool-cases (text_eq r.path (bytes "/admin/resume"))) [
      | inl t ↦ rw t (
          admitted set same method false ((text_eq_iff r.path (bytes "/admin/resume")).0 t) refl
            refl)
      | inr f ↦ rw f (turned_away refl (λ e. omega (arith, e)))
    ])
  ]

-- `AdminHandler` leaves the node as it was and answers with a status that is not 200, or the request
-- is a POST with the token, which is not empty, and it pauses the node on /admin/pause or resumes it
-- on /admin/resume, and answers with 200.
pub admin-IsGuarded :
    (token : Text) (r : AdminRequest) (n : Node) → Guarded token r n (admin token r n)
unfolding admin
admin-IsGuarded token r n = elim (Bool-cases (text_eq token [] || not (text_eq r.token token))) [
  | inl t ↦ rw t (turned_away refl (λ e. omega (arith, e)))
  | inr f ↦ rw f (elim (Bool-cases (not (text_eq r.method (bytes "POST")))) [
    | inl t ↦ rw t (turned_away refl (λ e. omega (arith, e)))
    | inr post ↦ rw post (
        by_path token r n (λ e. ground (arith, f, text_eq_iff token [], e))
          (ground (arith, f, text_eq_iff r.token token))
          (ground (arith, post, text_eq_iff r.method (bytes "POST"))))
  ])
]
