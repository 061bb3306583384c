-- ===== src/Dispatch/Senders.antt =====
-- The senders that the commands of core/src/app.rs bring, and how the table of requests that wait
-- and the effects of the loop account for them.
use puppypeer.Prelude.{
  ℕ, ◌+◌, ◌≡◌, ◌≢◌, refl, sym, ap, ◌∙◌, String, Bool, true, false, ◌==◌, ==_iff, none, some, List,
  [], ◌∷◌, ◌++◌, All, All-retain, All-imp, Distinct, Distinct-retain, Bool-cases, Option-cases, inl,
  inr, arith, length,
}
use puppypeer.State.{PeerId, Multiaddr}
use puppypeer.Wire.{PeerReq, PeerRes}
use puppypeer.Dispatch.Pending.{
  Sender, RequestId, PendingRequest, Pendings, Answer, sender, lookup, remove, put, complete, fail,
  await_entries, await_cpus, await_permissions, await_chunk,
}
use puppypeer.Dispatch.{
  list_dir_cmd, list_cpus_cmd, list_permissions_cmd, read_file_cmd, Effect, resolved, Net, App, Ran,
  ran, crashed, Input, settle, on_found, send_request, command, dial_all,
}

abbrev pub one_if : Bool → ℕ
one_if true = 1
one_if false = 0

-- How many times a sender waits, is answered, and is brought by commands.
abbrev pub waiting : Sender → Pendings → ℕ
waiting tx [] = 0
waiting tx (e ∷ es) = one_if (sender e.1 == tx) + waiting tx es

abbrev pub answers : Sender → Effect → ℕ
answers tx (resolved s a) = one_if (s == tx)
answers tx other = 0

abbrev pub answered : Sender → List Effect → ℕ
answered tx [] = 0
answered tx (e ∷ es) = answers tx e + answered tx es

abbrev pub brings : Sender → Input → ℕ
brings tx (command (list_dir_cmd peer path s)) = one_if (s == tx)
brings tx (command (list_cpus_cmd s peer)) = one_if (s == tx)
brings tx (command (list_permissions_cmd peer s)) = one_if (s == tx)
brings tx (command (read_file_cmd peer path offset length s)) = one_if (s == tx)
brings tx other = 0

abbrev pub brought : Sender → List (Net × Input) → ℕ
brought tx [] = 0
brought tx (i ∷ is) = brings tx i.1 + brought tx is

-- No request waits under the id, and each waits under an id of its own.
abbrev pub IsUnused : RequestId → Pendings → Type 0
IsUnused id ps = All (λ e. e.0 ≢ id) ps

abbrev pub IsKeyed : Pendings → Type 0
IsKeyed ps = Distinct (λ e. e.0) ps

pub remove_unused : (id : RequestId) (ps : Pendings) → IsUnused id ps → remove id ps ≡ ps
unfolding remove
remove_unused id [] h = refl
remove_unused id ((k, p) ∷ ps) h = ground (arith, ==_iff k id, remove_unused id ps h.1)

pub lookup_unused : (id : RequestId) (ps : Pendings) → IsUnused id ps → lookup id ps ≡ none
unfolding lookup
lookup_unused id [] h = refl
lookup_unused id ((k, p) ∷ ps) h = ground (arith, ==_iff k id, lookup_unused id ps h.1)

waiting-remove :
    (tx : Sender) (id : RequestId) (ps : Pendings) (p : PendingRequest)
    → IsKeyed ps
    → lookup id ps ≡ some p
    → waiting tx (remove id ps) + one_if (sender p == tx) ≡ waiting tx ps
unfolding remove lookup
waiting-remove tx id [] p d h = ground arith
waiting-remove tx id ((k, q) ∷ ps) p d h = elim (Bool-cases (k == id)) [
  | inl e ↦ ground (
    arith,
    remove_unused id ps (All-imp _ _ (λ x ne eq. ne (eq ∙ sym ((==_iff k id).0 e))) ps d.0),
  )
  | inr e ↦ ground (arith, waiting-remove tx id ps p d.1)
]

IsKeyed-put :
    (id : RequestId) (p : PendingRequest) (ps : Pendings)
    → IsUnused id ps
    → IsKeyed ps
    → IsKeyed (put id p ps)
unfolding put
IsKeyed-put id p ps u d = rw (remove_unused id ps u) (u, d)

waiting-put :
    (tx : Sender) (id : RequestId) (p : PendingRequest) (ps : Pendings)
    → IsUnused id ps
    → waiting tx (put id p ps) ≡ one_if (sender p == tx) + waiting tx ps
unfolding put
waiting-put tx id p ps u = rw (remove_unused id ps u) refl

pub complete-sender :
    (debug : PeerRes → String) (p : PendingRequest) (res : PeerRes)
    → (complete debug p res).0 ≡ sender p
unfolding complete
complete-sender debug (await_entries tx) res = refl
complete-sender debug (await_cpus tx) res = refl
complete-sender debug (await_permissions tx) res = refl
complete-sender debug (await_chunk tx) res = refl

pub fail-sender : (p : PendingRequest) (e : String) → (fail p e).0 ≡ sender p
unfolding fail
fail-sender (await_entries tx) e = refl
fail-sender (await_cpus tx) e = refl
fail-sender (await_permissions tx) e = refl
fail-sender (await_chunk tx) e = refl

pub answered-append :
    (tx : Sender) (es fs : List Effect) → answered tx (es ++ fs) ≡ answered tx es + answered tx fs
answered-append tx [] fs = omega arith
answered-append tx (e ∷ es) fs = omega (arith, answered-append tx es fs)

-- A dial answers nobody.
pub dial_all-answered :
    (tx : Sender) (dial : _) (items : List (PeerId × Multiaddr)) (es : List Effect)
    → dial_all dial items ≡ some es
    → answered tx es ≡ 0
unfolding dial_all
dial_all-answered tx dial [] es h = ground arith
dial_all-answered tx dial (i ∷ items) es h = elim (Option-cases (dial_all dial items)) [
  | inl e ↦ ground arith
  | inr (rest, e) ↦ ground (arith, dial_all-answered tx dial items rest e)
]

-- What one step does to the senders and to the requests that wait, where `id` may have been given to
-- a new request. A panic accounts for nothing.
abbrev pub Accounts : {D : Type 0} → App D → RequestId → Input → Ran D → Type 0
Accounts app id input (ran app' effects) =
    ((tx : Sender)
      → answered tx effects + waiting tx app'.pending_requests
        ≡ brings tx input + waiting tx app.pending_requests)
    × IsKeyed app'.pending_requests
    × ((k : RequestId)
        → k ≢ id
        → IsUnused k app.pending_requests
        → IsUnused k app'.pending_requests)
Accounts app id input crashed = Unit

module _ {D : Type 0} (app : App D) (keyed : IsKeyed app.pending_requests) where
  pub settle-Accounts :
      (unused id : RequestId) (input : Input) (f : PendingRequest → Sender × Answer)
      → ((tx : Sender) → brings tx input ≡ 0)
      → ((p : PendingRequest) → (f p).0 ≡ sender p)
      → Accounts app unused input (settle app id (on_found f (lookup id app.pending_requests)))
  unfolding remove
  settle-Accounts unused id input f quiet same =
      elim (Option-cases (lookup id app.pending_requests)) [
        | inl x ↦ rw x ((λ tx. omega (arith, quiet tx)), keyed, λ k ne u. u)
        | inr (p, x) ↦ rw x (
          (λ tx. omega (
            arith,
            quiet tx,
            ap (λ s. one_if (s == tx)) (same p),
            waiting-remove tx id app.pending_requests p keyed x,
          )),
          Distinct-retain (λ e. e.0) _ app.pending_requests keyed,
          λ k ne u. All-retain _ _ app.pending_requests u,
        )
      ]

  pub send_request-Accounts :
      (net : Net) (input : Input) (peer : PeerId) (req : PeerReq) (p : PendingRequest)
      (effects : List Effect)
      → IsUnused net.request_id app.pending_requests
      → ((tx : Sender) → brings tx input ≡ one_if (sender p == tx))
      → ((tx : Sender) → answered tx effects ≡ 0)
      → Accounts app net.request_id input (send_request app net peer req p effects)
  send_request-Accounts net input peer req p effects u b a = (
    (λ tx. omega (arith, b tx, a tx, waiting-put tx net.request_id p app.pending_requests u)),
    IsKeyed-put net.request_id p app.pending_requests u keyed,
    λ k ne v.
        unfold put in
        rw (remove_unused net.request_id app.pending_requests u) ((λ e. ne (sym e)), v),
  )

  -- An answer at once, and no change to the requests.
  pub answer-Accounts :
      (id : RequestId) (input : Input) (tx : Sender) (a : Answer)
      → ((s : Sender) → brings s input ≡ one_if (tx == s))
      → Accounts app id input (ran app (resolved tx a ∷ []))
  answer-Accounts id input tx a b = ((λ s. omega (arith, b s)), keyed, λ k ne u. u)

  -- A step that leaves the requests as they are and answers nobody.
  pub quiet-Accounts :
      (app' : App D) (effects : List Effect) (id : RequestId) (input : Input)
      → app'.pending_requests ≡ app.pending_requests
      → ((tx : Sender) → brings tx input ≡ 0)
      → ((tx : Sender) → answered tx effects ≡ 0)
      → Accounts app id input (ran app' effects)
  quiet-Accounts app' effects id input same b a =
      rw same ((λ tx. omega (arith, a tx, b tx)), keyed, λ k ne u. u)
