-- ===== src/Diode/Importer/Checks.antt =====
-- What the checks of a frame have found when they pass (internal/diode/relay.go).
use platform_orchestrator_ru.Base.{
  ◌≡◌, false, some, ok, with_ok, ◌%◌, ◌^◌, ◌≤◌, fail_if, ◌||◌, not, ◌*◌, ◌+◌, or_fail, subst,
  ok-injective, arith, ℕ,
}
use platform_orchestrator_ru.Diode.Importer.{
  Trace, World, Frame, admit, Entry, max_frame_bytes, is_oversized, has_expired, exceeds_limit,
}
use platform_orchestrator_ru.Diode.Frame.{Frame, verify_frame}
use platform_orchestrator_ru.Diode.Attachments.{validate_attachment_invariant}
use platform_orchestrator_ru.Diode.Frame.Genuine.{IsGenuine, verify_frame-IsGenuine}

-- An entry whose checks pass once the actions `before` are done, and its frame.
pub record IsAdmitted (w : World) (entry : Entry) (before : Trace) (frame : Frame) : Type 0 where
  pub is_file : entry.is_dir || not entry.is_json ≡ false
  pub small : entry.size ≤ w.max_attachment_bytes * 2 + 1_048_576
  pub decoded : w.unmarshal_frame entry.contents ≡ some frame
  pub genuine : IsGenuine w.objects.frames frame w.public_key
  pub timely : has_expired w frame.unsigned.message.expires_at before ≡ false
  pub attached :
      validate_attachment_invariant w.objects w.expected_attachment frame.unsigned.message
        frame.unsigned.attachment
      ≡ ok tt
  pub bounded : exceeds_limit w frame.unsigned.attachment ≡ false

oversized_lem : (size limit : ℕ) → is_oversized size (limit % 2 ^ 64) ≡ false → size ≤ limit
unfolding is_oversized
oversized_lem size limit h = ground (arith, h)

module _ (w : World) where
  pub admit-IsAdmitted :
      (entry : Entry) (before : Trace) (frame : Frame)
      → entry.is_dir || not entry.is_json ≡ false
      → admit w entry before ≡ ok frame
      → IsAdmitted w entry before frame
  unfolding admit max_frame_bytes
  admit-IsAdmitted entry before frame is_file passes =
      with_ok (IsAdmitted w entry before frame)
        (fail_if (is_oversized entry.size ((w.max_attachment_bytes * 2 + 1_048_576) % 2 ^ 64)) _)
        passes
        λ _ h1 e1.
          with_ok (IsAdmitted w entry before frame) (or_fail (w.unmarshal_frame entry.contents) _)
            e1
            λ f h2 e2.
              with_ok (IsAdmitted w entry before frame)
                (verify_frame w.objects.frames f w.public_key) e2
                λ _ h3 e3.
                  with_ok (IsAdmitted w entry before frame)
                    (fail_if (has_expired w f.unsigned.message.expires_at before) _) e3
                    λ _ h4 e4.
                      with_ok (IsAdmitted w entry before frame)
                        (validate_attachment_invariant w.objects w.expected_attachment
                          f.unsigned.message f.unsigned.attachment)
                        e4
                        λ _ h5 e5.
                          with_ok (IsAdmitted w entry before frame)
                            (fail_if (exceeds_limit w f.unsigned.attachment) _) e5
                            λ _ h6 e6. subst (IsAdmitted w entry before) (ok-injective e6) (record {
                              is_file = is_file;
                              small = oversized_lem entry.size _ (ground (arith, h1));
                              decoded = ground (arith, h2);
                              genuine = verify_frame-IsGenuine w.objects.frames w.public_key f h3;
                              timely = ground (arith, h4);
                              attached = h5;
                              bounded = ground (arith, h6);
                            })
