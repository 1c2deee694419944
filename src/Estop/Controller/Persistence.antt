-- ===== src/Estop/Controller/Persistence.antt =====
-- Engaging and clearing: what survives a restart, what the subscribers hear, and the guard by OTP.
use ada_claw.Prelude.{
  ℕ, ◌≡◌, refl, String, Bool, true, false, Option, some, [], ◌∷◌, ◌++◌, err, is_ok, arith,
  if◌then◌else◌,
}
use ada_claw.Estop.Controller.{
  Json, EstopLevel, EstopController, otp_required, Disk, writes, default_state, new, engage, clear,
}

module _ (j : Json) (now : ℕ) (level : EstopLevel) (reason : Option String) (otp : Bool) where
  -- Whatever the disk does, a stop is in force in this process at once, at the level that was asked for.
  -- The subscribers hear of it exactly when the file was written, and then a controller made from that
  -- file starts with the same state.
  pub engage_lem :
      (disk : Disk j.Text) (c : EstopController j.Text)
      → let (c', result) = engage j now disk level reason otp c in
        (c'.state.active ≡ true)
        × (c'.state.level ≡ some level)
        × (c'.sent ≡ (if is_ok result then c.sent ++ level ∷ [] else c.sent))
        × ((if is_ok result then (new j c'.file).state else c'.state) ≡ c'.state)
  unfolding engage new
  engage_lem writes c =
      (refl, refl, refl, ground (arith, j.from-to (engage j now writes level reason otp c).0.state))
  engage_lem _ c = (refl, refl, refl, refl)

  -- With OTP demanded, no clearing without it changes anything; with it the stop is lifted in memory,
  -- and in the file if that can be written.
  pub clear_needs_otp :
      (disk disk' : Disk j.Text) (c : EstopController j.Text)
      → let c' = (engage j now disk level reason true c).0 in
        (clear j disk' false c' ≡ (c', err otp_required))
        × ((clear j disk' true c').0.state ≡ default_state)
        × ((if is_ok (clear j disk' true c').1
              then (new j (clear j disk' true c').0.file).state
              else default_state)
            ≡ default_state)
  unfolding engage clear new
  clear_needs_otp disk disk' c =
      (ground arith, ground arith, ground (arith, j.from-to default_state))

  -- A second stop that does not demand OTP replaces a first that did, whatever their levels: the clearing
  -- then needs no OTP.
  pub reengage_drops_otp :
      (level' : EstopLevel) (reason' : Option String) (now' : ℕ) (disk disk' disk'' : Disk j.Text)
      (c : EstopController j.Text)
      → let c' = (engage j now disk level reason true c).0 in
        let c'' = (engage j now' disk' level' reason' false c').0 in
        ((clear j disk'' false c').0.state.level ≡ some level)
        × ((clear j disk'' false c'').0.state ≡ default_state)
  unfolding engage clear
  reengage_drops_otp level' reason' now' disk disk' disk'' c = (ground arith, ground arith)
