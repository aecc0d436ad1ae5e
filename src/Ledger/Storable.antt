-- ===== src/Ledger/Storable.antt =====
-- crates/tith-ledger/src/lib.rs: what is changed of a record or an orphan can be stored again.
use tith.Base.{
  ◌≡◌, subst, Bool, true, Bool-cases, ◌=?◌, nat_eq, list_eq, List, [], ◌∷◌, length, ◌≤◌,
  ok-injective, All, Option, none, some, ok, inl, inr,
}
use tith.Base.Options.{is_some, some-injective}
use tith.Store.Table.{Entries, less, find, put}
use tith.Ledger.{Text, State, QuarantineObject, Orphan, Record, orphan_eq}
use tith.Ledger.Bytes.{u32_max}
use tith.Ledger.RoundTrip.{IsStorable, IsStorableNotice, IsStorableOrphan}
use tith.Ledger.Pieces.{IsText}
use tith.Ledger.Operations.{forward, owe, reach, publish_notice}

module _ {V : Type 0} (P : V → Type 0) where
  abbrev pub Kept : Entries V → Type 0
  Kept entries = All (λ (entry : Text × V). P entry.1) entries

  pub Kept-find :
      (key : Text) (entries : Entries V) (v : V) → Kept entries → find key entries ≡ some v → P v
  Kept-find key [] v h e = cc
  Kept-find key ((k, w) ∷ entries) v (p, ps) e = elim (Bool-cases (k =? key)) [
    | inl s ↦ subst P (some-injective (rw s at e)) p
    | inr s ↦ Kept-find key entries v ps (rw s at e)
  ]

  pub Kept-put :
      (key : Text) (v : V) (entries : Entries V) → Kept entries → P v → Kept (put key v entries)
  Kept-put key v [] h p = (p, tt)
  Kept-put key v ((k, w) ∷ entries) (q, qs) p = elim (Bool-cases (k =? key)) [
    | inl s ↦ rw s (p, qs)
    | inr s ↦ elim (Bool-cases (less k key)) [
      | inl l ↦ rw (s, l) (q, Kept-put key v entries qs p)
      | inr l ↦ rw (s, l) (p, (q, qs))
    ]
  ]

pub reach-IsStorable :
    (state : State) (value : Record) → IsStorable value → IsStorable (reach state value)
unfolding reach
reach-IsStorable state value h = record {
  inbound_id = h.inbound_id;
  payload_hash = h.payload_hash;
  object_count = h.object_count;
  objects = h.objects;
  note = h.note;
  claim_token = h.claim_token;
  distribution = h.distribution;
  forward_job = h.forward_job;
  cleanup_count = h.cleanup_count;
  cleanup = h.cleanup;
}

pub forward-IsStorable :
    (job_id : Text) (value : Record)
    → IsText job_id
    → IsStorable value
    → IsStorable (forward job_id value)
unfolding forward
forward-IsStorable job_id value text h = record {
  inbound_id = h.inbound_id;
  payload_hash = h.payload_hash;
  object_count = h.object_count;
  objects = h.objects;
  note = h.note;
  claim_token = h.claim_token;
  distribution = h.distribution;
  forward_job = text;
  cleanup_count = h.cleanup_count;
  cleanup = h.cleanup;
}

pub owe-IsStorable :
    (paths : List Text) (value : Record)
    → length paths ≤ u32_max
    → All IsText paths
    → IsStorable value
    → IsStorable (owe paths value)
unfolding owe
owe-IsStorable paths value count texts h = record {
  inbound_id = h.inbound_id;
  payload_hash = h.payload_hash;
  object_count = h.object_count;
  objects = h.objects;
  note = h.note;
  claim_token = h.claim_token;
  distribution = h.distribution;
  forward_job = h.forward_job;
  cleanup_count = count;
  cleanup = texts;
}

notice-shown :
    (notice : Option QuarantineObject) (before : Bool)
    → is_some notice ≡ true
    → IsStorableNotice notice before
    → IsStorableNotice notice true
notice-shown none before e h = cc
notice-shown (some notice) before e h = h

pub publish_notice-IsStorable :
    (orphan shown : Orphan)
    → IsStorableOrphan orphan
    → publish_notice orphan ≡ ok shown
    → IsStorableOrphan shown
unfolding publish_notice
publish_notice-IsStorable orphan shown h e = elim (Bool-cases (is_some orphan.notice)) [
  | inr absent ↦ cc (rw absent at e)
  | inl there ↦ subst IsStorableOrphan (ok-injective (rw there at e)) (record {
    inbound_id = h.inbound_id;
    authentication = h.authentication;
    reason = h.reason;
    payload = h.payload;
    object_count = h.object_count;
    objects = h.objects;
    notice = notice-shown orphan.notice orphan.notice_published there h.notice;
  })
]
