-- ===== src/Host.antt =====
-- The functions of the JavaScript runtime on texts and dates that the mapping and the natural keys
-- call.
use hubspot_salesforce_conne.Prelude.{String, Option}
use hubspot_salesforce_conne.Types.{FieldValue}

pub record Host : Type 0 where
  -- `s.trim()`, `s.toLowerCase()`
  pub trim : String → String
  pub lower_case : String → String
  -- `new URL(s).hostname`, absent where the constructor throws
  pub hostname : String → Option String
  -- `s.replace(/^www\./, '')`, `s.replace(/[^\d+]/g, '')`, `s.replace(/[^a-z0-9]/gi, '')`
  pub strip_www : String → String
  pub dial_characters : String → String
  pub alphanumeric : String → String
  -- `String(Number(v))` where that number is finite
  pub number : FieldValue → Option String
  -- `new Date(v)` where it is valid: `toISOString()`, and `String(getTime())`
  pub iso_date : FieldValue → Option String
  pub epoch_millis : FieldValue → Option String
