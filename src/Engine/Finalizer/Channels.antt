-- ===== src/Engine/Finalizer/Channels.antt =====
-- Which channels `_dispatch` of scheduler/finalizer.py sends to, and which ones its warning names.
use qiankun.Prelude.{◌≡◌, refl, ap, String, Bool, not, List, [], ◌∷◌, map, inl, inr, Bool-cases}
use qiankun.Prelude.Lists.{keep_if}
use qiankun.Prelude.Json.{Value}
use qiankun.Engine.Finalizer.{warned, deliveries_of}

-- Where every configured channel is usable, the warning names exactly the channels that have no
-- driver, and the message goes to exactly the others, in the configured order.
warned-deliveries_of :
    (has_driver : String → Bool) (title content : String) (channels : List String)
    (configs : List (String × Value))
    → map (λ c. c.0) configs ≡ channels
    → (warned has_driver channels configs ≡ keep_if (λ c. not (has_driver c)) channels)
      × (map (λ d. d.channel) (deliveries_of has_driver title content configs)
          ≡ keep_if has_driver channels)
unfolding warned deliveries_of
warned-deliveries_of has_driver title content [] [] e = (refl, refl)
warned-deliveries_of has_driver title content [] (c ∷ configs) e = cc
warned-deliveries_of has_driver title content (channel ∷ channels) [] e = cc
warned-deliveries_of has_driver title content (channel ∷ channels) ((sent_to, config) ∷ configs) e =
    let same : sent_to ≡ channel = cc in
    let (w, d) = warned-deliveries_of has_driver title content channels configs cc in
    elim (Bool-cases (has_driver channel)) [
      | inl has ↦ rw same (rw has (w, ap (λ ds. channel ∷ ds) d))
      | inr lacks ↦ rw same (rw lacks (ap (λ ds. channel ∷ ds) w, d))
    ]
