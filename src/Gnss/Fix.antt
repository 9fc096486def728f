-- ===== src/Gnss/Fix.antt =====
-- The position line of the modem, as Modules/GNSSModule/GeopositioningState reads it.
use gateway_lo_ra.Prelude.{
  ℕ, ◌≤◌, ◌<◌, ◌^◌, ◌≡◌, true, false, List, ◌∷◌, ◌++◌, Option, some, codes, length, is_free_of,
  is_space,
}
use gateway_lo_ra.Gateway.Show.{show_ℕ}

-- What the modem knows: the texts of the time and the date, each with its first character apart.
pub record Fix (Float : Type 0) : Type 0 where
  pub utc_first : ℕ
  pub utc_rest : List ℕ
  pub latitude : Float
  pub longitude : Float
  pub hdop : Float
  pub altitude : Float
  pub fix : ℕ
  pub cog : Float
  pub spkm : Float
  pub spkn : Float
  pub date_first : ℕ
  pub date_rest : List ℕ
  pub nsat : ℕ

module _ {Float : Type 0} (show_float : Float → List ℕ) where
  abbrev course_line : Fix Float → List ℕ
  course_line f =
      show_float f.cog
      ++ b','
        ∷ (show_float f.spkm
            ++ b','
              ∷ (show_float f.spkn
                  ++ b',' ∷ ((f.date_first ∷ f.date_rest) ++ b',' ∷ show_ℕ f.nsat)))

  abbrev place_line : Fix Float → List ℕ
  place_line f =
      show_float f.latitude
      ++ b','
        ∷ (show_float f.longitude
            ++ b','
              ∷ (show_float f.hdop
                  ++ b','
                    ∷ (show_float f.altitude ++ b',' ∷ (show_ℕ f.fix ++ b',' ∷ course_line f))))

  -- "+QGPSLOC: utc,latitude,longitude,hdop,altitude,fix,cog,spkm,spkn,date,nsat"
  abbrev pub position_line : Fix Float → List ℕ
  position_line f = codes "+QGPSLOC: " ++ ((f.utc_first ∷ f.utc_rest) ++ b',' ∷ place_line f)

-- The time is 9 characters at most and does not begin with a blank, the date 6, neither has a comma,
-- and the numbers are below 2^31.
abbrev pub IsPrintable : {Float : Type 0} → Fix Float → Type 0
IsPrintable f =
    (is_free_of b',' (f.utc_first ∷ f.utc_rest) ≡ true)
    × (is_space f.utc_first ≡ false)
    × (length (f.utc_first ∷ f.utc_rest) ≤ 9)
    × (is_free_of b',' (f.date_first ∷ f.date_rest) ≡ true)
    × (length (f.date_first ∷ f.date_rest) ≤ 6)
    × (f.fix < 2 ^ 31)
    × (f.nsat < 2 ^ 31)

-- What "%f" documents: it reads back what was written, up to the comma behind it.
abbrev pub ReadsBack :
    {Float : Type 0} → (Float → List ℕ) → (List ℕ → Option (Float × List ℕ)) → Type 0
ReadsBack show_float scan_float =
    (x : _) (rest : List ℕ) → scan_float (show_float x ++ b',' ∷ rest) ≡ some (x, b',' ∷ rest)
