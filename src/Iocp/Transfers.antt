-- ===== src/Iocp/Transfers.antt =====
-- A read from its submission to its result.
use asco.Prelude.{
  ℕ, ◌≡◌, refl, ap, Bool, true, false, ◌==◌, none, some, [], ◌∷◌, ◌++◌, update, update_self,
  Expected, value, unexpected, if◌then◌else◌, Bool-cases, inl, inr,
}
use asco.File.{pos}
use asco.IoUring.Results.{TransferError, Failed}
use asco.Iocp.{
  RequestWrap, Adapter, Started, Errors, started, submit, transfer_error, write_result, read_result,
  complete, Packet, noted, run_once,
}

module _ (n : Errors) where
  -- What a read comes to: the end of the file is no error, but no bytes.
  abbrev pub failure : ℕ → Expected ℕ (Failed TransferError)
  failure err =
      if err == n.error_handle_eof
      then value 0
      else unexpected (record { type = transfer_error n err; raw_code = pos err })

  abbrev pub outcome : Started → Bool → ℕ → ℕ → Expected ℕ (Failed TransferError)
  outcome (Started.failed err) ok bytes error = failure err
  outcome Started.pending true bytes error = value bytes
  outcome Started.pending false bytes error = failure error

  abbrev pub submitted : ℕ → RequestWrap
  submitted token = record {
    token = token;
    finished = false;
    ok = false;
    bytes_transferred = 0;
    error_code = 0;
  }

  read_result-outcome :
      (answer : Started) (token : ℕ) (ok : Bool) (bytes error : ℕ)
      → read_result n (noted (started n answer (submitted token)) ok bytes error)
        ≡ outcome answer ok bytes error
  unfolding read_result write_result
  read_result-outcome Started.pending token true bytes error = refl
  read_result-outcome Started.pending token false bytes error = refl
  read_result-outcome (Started.failed err) token ok bytes error =
      elim (Bool-cases (err == n.error_handle_eof)) [
        | inl eof ↦ rw eof refl
        | inr other ↦ rw other refl
      ]

  token-kept : (answer : Started) (token : ℕ) → (started n answer (submitted token)).token ≡ token
  token-kept Started.pending token = refl
  token-kept (Started.failed err) token = refl

  -- The calls for one request, and what is left of it.
  pub record Served (a : Adapter) (reqid token : ℕ) (answer : Started) (ok : Bool) (bytes error : ℕ)
      : Type 0 where
    pub a₁ : Adapter
    pub a₂ : Adapter
    pub a₃ : Adapter
    pub reqw : RequestWrap
    pub submits : submit n a reqid token answer ≡ some a₁
    pub runs : run_once false a₁ (Packet.packet reqid ok bytes error) ≡ some (true, a₂)
    pub wakes : a₂.awoken ≡ a.awoken ++ token ∷ []
    pub completes : complete a₂ reqid ≡ some (reqw, a₃)
    pub result : read_result n reqw ≡ outcome answer ok bytes error
    pub forgotten : a₃.m_requests reqid ≡ none

  -- A read under an id that is not pending is submitted, found when its packet comes, and completed,
  -- without a panic; its task is woken, and the result is the system's: the bytes of the packet, 0
  -- at the end of the file, or the error, be it from the start of the transfer, which the packet does not
  -- overwrite, or from the packet.
  pub read-Served :
      (a : Adapter) (reqid token : ℕ) (answer : Started) (ok : Bool) (bytes error : ℕ)
      → a.m_requests reqid ≡ none
      → Served a reqid token answer ok bytes error
  unfolding submit run_once complete
  read-Served a reqid token answer ok bytes error fresh =
      let first : RequestWrap = started n answer (submitted token) in
      let last : RequestWrap = noted first ok bytes error in
      let b : Adapter = record a {
        m_requests = update a.m_requests reqid (some first);
        in_flight = update a.in_flight reqid true;
      } in
      let c : Adapter = record b {
        m_requests = update b.m_requests reqid (some last);
        awoken = b.awoken ++ first.token ∷ [];
      } in
      record {
        a₁ = b;
        a₂ = c;
        a₃ = record c { m_requests = update c.m_requests reqid none };
        reqw = last;
        submits = rw (submit, fresh) refl;
        runs = rw (run_once, update_self a.m_requests reqid (some first)) refl;
        wakes = ap (λ t. a.awoken ++ t ∷ []) (token-kept answer token);
        completes = rw (complete, update_self b.m_requests reqid (some last)) refl;
        result = read_result-outcome answer token ok bytes error;
        forgotten = update_self c.m_requests reqid none;
      }
