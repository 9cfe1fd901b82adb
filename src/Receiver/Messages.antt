-- ===== src/Receiver/Messages.antt =====
-- What the texts that the receiver sends say.
use gcc_chrome.Common.{◌≡◌, sym, refl, not, ◌⊎◌, inl, inr, if-elim, List, [], ◌∷◌, ◌++◌}
use mathlib.Core.Path.{subst}
use gcc_chrome.Unit.{DataRate, is_zero}
use gcc_chrome.Common.Int.{eqb_ℤ}
use gcc_chrome.Packet.{Text, RrPacket, serialize_rr, serialize_remb}
use gcc_chrome.LossCollection.{LossReportUpdate}
use gcc_chrome.DelayBased
use gcc_chrome.Receiver.{
  Receiver, on_delay_base_bwe_updated, tell_delay, on_loss_report_generated, loss_texts,
}

abbrev pub IsLossReport : Text → Type 0
IsLossReport t = (p : RrPacket) × (t ≡ serialize_rr p)

-- Loss reports and bit rates, after a rate that was sent before them, and up to the last one.
abbrev pub Messages : DataRate → List Text → DataRate → Type 0
Messages before [] after = before ≡ after
Messages before (t ∷ ts) after =
    (IsLossReport t × Messages before ts after)
    ⊎ ((rate : DataRate) × (t ≡ serialize_remb (record { bandwidth = rate }))
        × Messages rate ts after)

pub Messages-append :
    (a b c : DataRate) (ts us : List Text)
    → Messages a ts b
    → Messages b us c
    → Messages a (ts ++ us) c
Messages-append a b c [] us e m = subst (λ r. Messages r us c) (sym e) m
Messages-append a b c (t ∷ ts) us (inl (p, m)) m' = inl (p, Messages-append a b c ts us m m')
Messages-append a b c (t ∷ ts) us (inr (rate, e, m)) m' =
    inr (rate, e, Messages-append rate b c ts us m m')

pub loss_texts-Messages :
    (result : LossReportUpdate) (rate : DataRate) → Messages rate (loss_texts result) rate
unfolding loss_texts on_loss_report_generated
loss_texts-Messages result rate =
    if-elim (λ (ts : List Text). Messages rate ts rate) result.updated (λ _. inl ((_, refl), refl))
      (λ _. refl)

module _ {ℓ} {F : Type ℓ} where
  abbrev Says : Receiver F → Receiver F × List Text → Type 0
  Says s (r, texts) = Messages s.last_remb_rate texts r.last_remb_rate

  on_delay_base_bwe_updated-Says :
      (s : Receiver F) (result : DelayBased.Result) → Says s (on_delay_base_bwe_updated s result)
  unfolding on_delay_base_bwe_updated
  on_delay_base_bwe_updated-Says s result =
      let told = inr (result.target_bitrate, refl, refl) in
      if-elim (Says s) (is_zero s.last_remb_rate) (λ _. told)
        (λ _.
          if-elim (Says s) (not (eqb_ℤ s.last_remb_rate result.target_bitrate)) (λ _. told)
            (λ _. refl))

  pub tell_delay-Messages :
      (s : Receiver F) → Messages s.last_remb_rate (tell_delay s).1 (tell_delay s).0.last_remb_rate
  unfolding tell_delay
  tell_delay-Messages s =
      let result = s.gcc_controler.recent_result in
      if-elim (Says s) result.updated (λ _. on_delay_base_bwe_updated-Says s result) (λ _. refl)
