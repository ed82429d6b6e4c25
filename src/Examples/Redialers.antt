-- ===== src/Examples/Redialers.antt =====
-- An auto redialer that is stopped while it dials.
use push_component.Base.{◌≡◌, [], ◌∷◌, some}
use push_component.Client.Redialer.{
  Redialer, new_auto_redialer, stops, begins, ends, redialer_run, IsSettled, redialer_run-IsSettled,
}

redialer_run-IsSettled_example :
    (last : Redialer) × (redialer_run (begins ∷ stops ∷ ends ∷ stops ∷ []) new_auto_redialer
      ≡ some last)
    × IsSettled last
redialer_run-IsSettled_example = redialer_run-IsSettled (begins ∷ stops ∷ ends ∷ stops ∷ [])
