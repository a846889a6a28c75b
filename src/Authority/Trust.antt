-- ===== src/Authority/Trust.antt =====
-- `EvidenceTrust.verified_receipts` (authority.py, lines 72-77, 113 and 178-215).
use cc_suite.Prelude.{
  ℕ, ◌≡◌, refl, Bool, true, false, not, ◌&&◌, Option, none, some, is_some, List, [], ◌∷◌, ◌++◌,
  String, str_eq, Result, ok, err, raise_if, ◌>>◌, is_truthy, sha256_fullmatch, leb, All,
  All-append, raise_if-ok, raise_if-false, >>-ok, subst,
}
use cc_suite.Domain.{DateTime}
use cc_suite.Authority.Types.{
  EvidenceReceipt, GateRequest, Denial, Libraries, get, member, Receipts,
}

-- `_INDEPENDENT_CHECKS`
abbrev pub independent_checks : List String
independent_checks = "independent_verify" ∷ "cmcv" ∷ "review_3_plus_3" ∷ []

module _ ⦃lib : Libraries⦄ where
  pub record TrustedEvidenceIssuer : Type 0 where
    pub issuer : String
    pub family : String
    pub public_key : lib.PublicKey
    pub allowed_checks : List String

  abbrev pub Issuers : Type 0
  Issuers = List (String × TrustedEvidenceIssuer)

  -- The two times of a receipt, at the time now.
  abbrev is_current : Option DateTime → Option DateTime → ℕ → Bool
  is_current (some issued) (some expires) now =
      issued.is_aware
      && expires.is_aware
      && leb issued.instant now
      && leb now expires.instant
      && not (leb expires.instant issued.instant)
  is_current _ _ now = false

  abbrev pub is_readable : EvidenceReceipt → Bool
  is_readable r =
      is_some (lib.fromisoformat r.issued_at) && is_some (lib.fromisoformat r.expires_at)

  abbrev pub is_valid_at : ℕ → EvidenceReceipt → Bool
  is_valid_at now r =
      is_current (lib.fromisoformat r.issued_at) (lib.fromisoformat r.expires_at) now

  -- The checks on a receipt after its issuer was found.
  checks_by : GateRequest → ℕ → EvidenceReceipt → TrustedEvidenceIssuer → Result Denial (Unit {0})
  checks_by request now r issuer = do
    raise_if (not (member r.check_id issuer.allowed_checks)) Denial.untrusted_issuer
    raise_if (not (str_eq r.intent_sha256 (lib.intent_sha256 request))) Denial.other_intent
    raise_if (not (sha256_fullmatch r.artifact_sha256 && is_truthy r.artifact_ref))
        Denial.bad_artifact
    raise_if (not (is_readable r)) Denial.bad_timestamp
    raise_if (not (is_valid_at now r)) Denial.not_currently_valid
    raise_if (member r.check_id independent_checks && str_eq issuer.family request.actor_family)
        Denial.same_family
    raise_if (not (lib.verifies issuer.public_key r)) Denial.bad_signature

  checks_found :
      GateRequest → ℕ → EvidenceReceipt → Option TrustedEvidenceIssuer → Result Denial (Unit {0})
  unfolding checks_by
  checks_found request now r none = err Denial.untrusted_issuer
  checks_found request now r (some issuer) = checks_by request now r issuer

  -- The loop over the evidence, with the receipts verified so far.
  unfoldable pub verify_all :
      Issuers → GateRequest → ℕ → Receipts → List EvidenceReceipt → Result Denial Receipts
  unfolding checks_found
  verify_all issuers request now verified [] = ok verified
  verify_all issuers request now verified (r ∷ rest) =
      let later = verify_all issuers request now (verified ++ (r.check_id, r) ∷ []) rest in
      do
        raise_if (is_some (get r.check_id verified)) Denial.duplicate_evidence
        checks_found request now r (get r.issuer issuers)
        later

  unfoldable pub verified_receipts : Issuers → GateRequest → ℕ → Result Denial Receipts
  verified_receipts issuers request now = verify_all issuers request now [] request.evidence

  -- A receipt that speaks for the request at the time now: by a trusted issuer for its check, on this
  -- very intent, current, signed, and by another family than the actor's where its check is one of the
  -- independent ones.
  pub record IsTrusted (issuers : Issuers) (request : GateRequest) (now : ℕ)
      (entry : String × EvidenceReceipt) : Type 0 where
    pub issuer : TrustedEvidenceIssuer
    pub keyed : entry.0 ≡ entry.1.check_id
    pub known : get entry.1.issuer issuers ≡ some issuer
    pub scoped : member entry.1.check_id issuer.allowed_checks ≡ true
    pub bound : str_eq entry.1.intent_sha256 (lib.intent_sha256 request) ≡ true
    pub current : is_valid_at now entry.1 ≡ true
    pub independent :
        (member entry.1.check_id independent_checks && str_eq issuer.family request.actor_family)
        ≡ false
    pub signed : lib.verifies issuer.public_key entry.1 ≡ true

  not-false : (b : Bool) → not b ≡ false → b ≡ true
  not-false true h = refl
  not-false false h = cc

  checks_found-IsTrusted :
      (issuers : Issuers) (request : GateRequest) (now : ℕ) (r : EvidenceReceipt)
      (o : Option TrustedEvidenceIssuer)
      → get r.issuer issuers ≡ o
      → checks_found request now r o ≡ ok tt
      → IsTrusted issuers request now (r.check_id, r)
  unfolding checks_found checks_by
  checks_found-IsTrusted issuers request now r none e h = cc
  checks_found-IsTrusted issuers request now r (some issuer) e h =
      let (scoped, h1) =
        raise_if-ok (not (member r.check_id issuer.allowed_checks)) Denial.untrusted_issuer _ h in
      let (bound, h2) =
        raise_if-ok (not (str_eq r.intent_sha256 (lib.intent_sha256 request))) Denial.other_intent _
          h1 in
      let (_, h3) =
        raise_if-ok (not (sha256_fullmatch r.artifact_sha256 && is_truthy r.artifact_ref))
          Denial.bad_artifact _ h2 in
      let (_, h4) = raise_if-ok (not (is_readable r)) Denial.bad_timestamp _ h3 in
      let (current, h5) = raise_if-ok (not (is_valid_at now r)) Denial.not_currently_valid _ h4 in
      let (independent, h6) =
        raise_if-ok
          (member r.check_id independent_checks && str_eq issuer.family request.actor_family)
          Denial.same_family _ h5 in
      record {
        issuer = issuer;
        keyed = refl;
        known = e;
        scoped = not-false (member r.check_id issuer.allowed_checks) scoped;
        bound = not-false (str_eq r.intent_sha256 (lib.intent_sha256 request)) bound;
        current = not-false (is_valid_at now r) current;
        independent = independent;
        signed =
            not-false (lib.verifies issuer.public_key r) (raise_if-false _ Denial.bad_signature h6);
      }

  verify_all-IsTrusted :
      (issuers : Issuers) (request : GateRequest) (now : ℕ) (verified : Receipts)
      (rs : List EvidenceReceipt) {receipts : Receipts}
      → All (IsTrusted issuers request now) verified
      → verify_all issuers request now verified rs ≡ ok receipts
      → All (IsTrusted issuers request now) receipts
  unfolding verify_all
  verify_all-IsTrusted issuers request now verified [] {receipts} t h =
      let same : ◌≡◌ {A = Receipts} verified receipts = cc in
      subst (All (IsTrusted issuers request now)) same t
  verify_all-IsTrusted issuers request now verified (r ∷ rest) t h =
      let (_, h1) = raise_if-ok (is_some (get r.check_id verified)) _ _ h in
      let (checked, h2) = >>-ok (checks_found request now r (get r.issuer issuers)) _ h1 in
      verify_all-IsTrusted issuers request now (verified ++ (r.check_id, r) ∷ []) rest
        (All-append (IsTrusted issuers request now) verified ((r.check_id, r) ∷ []) t
          (checks_found-IsTrusted issuers request now r (get r.issuer issuers) refl checked, tt))
        h2

  -- Every receipt that `verified_receipts` returns stands under its own check, is by an issuer that is
  -- trusted for that check, is bound to the intent of this very request, is current, carries that
  -- issuer's valid signature, and, for an independent check, comes from another family than the actor's.
  pub verified_receipts-IsTrusted :
      (issuers : Issuers) (request : GateRequest) (now : ℕ) (receipts : Receipts)
      → verified_receipts issuers request now ≡ ok receipts
      → All (IsTrusted issuers request now) receipts
  unfolding verified_receipts
  verified_receipts-IsTrusted issuers request now receipts h =
      verify_all-IsTrusted issuers request now [] request.evidence tt h
