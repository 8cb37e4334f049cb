-- ===== src/Diode/Attachments/Buckets.antt =====
-- The buckets of bundles on both sides of the diode (internal/diode/relay.go).
use platform_orchestrator_ru.Base.{
  ◌≡◌, refl, String, some, none, ok, Option, true, ◌≢◌, is_ok, false, with_ok, or_fail, subst,
  str_append, str_eq, fail_if, ok-injective, Bool-cases, Option-cases, arith, ltb, eq_iff, inl,
  ◌||◌, length, inr, ap, take, ◌+◌,
}
use platform_orchestrator_ru.Diode.Attachments.{
  attachment_reference, validate_attachment_invariant, load_attachment, ObjectLibrary,
  fetch_attachment, ExportConfig, Message, Reference, Attachment, fetch_needed, CommandEnvelope,
  complete, bundle_reference, default_bucket, check_attachment,
}
use platform_orchestrator_ru.Diode.Frame.{has_own_hash, Attachment}
use platform_orchestrator_ru.Messaging.{Message, CommandEnvelope}

module _ (lib : ObjectLibrary) (config : ExportConfig) where
  fetch_attachment-hash :
      (reference : Reference) (attachment : Attachment)
      → fetch_attachment lib config reference ≡ ok attachment
      → attachment.payload_sha256 ≡ lib.frames.payload_hash attachment.contents
  unfolding fetch_attachment
  fetch_attachment-hash reference attachment fetched =
      with_ok (attachment.payload_sha256 ≡ lib.frames.payload_hash attachment.contents)
        (or_fail (lib.get_object reference) _) fetched
        λ object h e.
          with_ok (attachment.payload_sha256 ≡ lib.frames.payload_hash attachment.contents)
            (fail_if
              (ltb config.max_attachment_bytes
                (length (take (config.max_attachment_bytes + 1) object)))
              _)
            e
            λ _ h' e'.
              subst (λ a. a.payload_sha256 ≡ lib.frames.payload_hash a.contents) (ok-injective e')
                refl

  fetch_needed-has_own_hash :
      (reference : Option Reference) (attachment : Option Attachment)
      → fetch_needed lib config reference ≡ ok attachment
      → has_own_hash lib.frames attachment ≡ true
  unfolding fetch_needed has_own_hash
  fetch_needed-has_own_hash none attachment fetched =
      subst (λ a. has_own_hash lib.frames a ≡ true) (ok-injective fetched) refl
  fetch_needed-has_own_hash (some reference) attachment fetched =
      with_ok (has_own_hash lib.frames attachment ≡ true) (fetch_attachment lib config reference)
        fetched
        λ a h e.
          subst (λ b. has_own_hash lib.frames b ≡ true) (ok-injective e)
            ((eq_iff a.payload_sha256 (lib.frames.payload_hash a.contents)).1
              (fetch_attachment-hash reference a h))

  -- A loaded attachment has the hash that it states.
  pub load_attachment-has_own_hash :
      (message : Message) (attachment : Option Attachment)
      → load_attachment lib config message ≡ ok attachment
      → has_own_hash lib.frames attachment ≡ true
  unfolding load_attachment
  load_attachment-has_own_hash message attachment loads =
      with_ok (has_own_hash lib.frames attachment ≡ true) (attachment_reference lib config message)
        loads λ reference h e. fetch_needed-has_own_hash reference attachment e

  -- The reference of a bundle.
  abbrev bundle_of : CommandEnvelope → String → Reference
  bundle_of command bucket = record {
    bucket = bucket;
    key = str_append command.organization_id (str_append "/" command.deployment_id);
  }

  complete-some :
      (reference reference' : Reference)
      → complete lib reference ≡ ok (some reference')
      → (reference ≡ reference') × (str_eq reference.key "" ≡ false)
  unfolding complete
  complete-some reference reference' h =
      elim (Bool-cases (str_eq reference.bucket "" || str_eq reference.key "")) [
        | inl missing ↦ absurd (cc (rw missing at h))
        | inr whole ↦ let e = rw whole at h in (cc, ground (arith, whole))
      ]

  bundle_reference-some :
      (bundle_bucket : String) (message : Message) (reference : Reference)
      → bundle_reference lib bundle_bucket message ≡ ok (some reference)
      → (command : CommandEnvelope) × (lib.unmarshal_command message.payload ≡ some command)
        × (str_eq command.type "create-job" ≡ true)
        × (bundle_of command (default_bucket lib bundle_bucket) ≡ reference)
        × (str_eq (bundle_of command bundle_bucket).key "" ≡ false)
  unfolding bundle_reference
  bundle_reference-some bundle_bucket message reference refers =
      elim (Option-cases (lib.unmarshal_command message.payload)) [
        | inl bad ↦ absurd (cc (rw bad at refers))
        | inr (command, good) ↦ elim (Bool-cases (str_eq command.type "create-job")) [
          | inr other ↦ absurd (cc (rw other at (rw good at refers)))
          | inl create ↦
              let (e, keyed) =
                complete-some (bundle_of command (default_bucket lib bundle_bucket)) reference
                  (rw create at (rw good at refers)) in
              (command, good, create, e, keyed)
        ]
      ]

  -- With a bundle bucket of its own, the exporter attaches the bundle of a create-job command from
  -- that bucket, and the importer, which expects the default bucket, refuses every such attachment.
  pub validate_attachment_invariant-bundle_bucket :
      (message : Message) (reference : Reference) (attachment : Attachment)
      → config.attach_object ≡ "bundle"
      → config.bundle_bucket ≢ ""
      → config.bundle_bucket ≢ "PO_RUNNER_BUNDLES"
      → attachment_reference lib config message ≡ ok (some reference)
      → attachment.bucket ≡ reference.bucket
      → (reference.bucket ≡ config.bundle_bucket)
        × (is_ok (validate_attachment_invariant lib "bundle" message (some attachment)) ≡ false)
  unfolding attachment_reference default_bucket validate_attachment_invariant bundle_reference
      complete check_attachment
  validate_attachment_invariant-bundle_bucket message reference attachment kind own other refers
        same =
      let (command, good, create, e, keyed) =
        bundle_reference-some config.bundle_bucket message reference (rw kind at refers) in
      let bucket : reference.bucket ≡ config.bundle_bucket =
        ground (arith, eq_iff config.bundle_bucket "", ap (λ r. r.bucket) e) in
      let differs : str_eq attachment.bucket "PO_RUNNER_BUNDLES" ≡ false =
        ground (arith, eq_iff attachment.bucket "PO_RUNNER_BUNDLES") in
      (bucket, rw (good, create, keyed, differs) refl)
