-- ===== src/Json.antt =====
-- The values of `nlohmann::json` (lib/json.hpp), and what the server takes from that library.
-- `D` is `double`.
use http_audio_server.Common.{ℕ, List, Bool, Option}
use http_audio_server.Common.Int.{ℤ}

mutual
  pub data Json (D : Type 0) : Type 0 where
    null : Json D
    boolean : Bool → Json D
    integer : ℤ → Json D
    real : D → Json D
    string : List ℕ → Json D
    array : Items D → Json D
    object : Fields D → Json D

  pub data Items (D : Type 0) : Type 0 where
    nil : Items D
    item : Json D → Items D → Items D

  -- The members in the order of iteration.
  pub data Fields (D : Type 0) : Type 0 where
    end : Fields D
    field : List ℕ → Json D → Fields D → Fields D

-- `json::parse` (`none` is an exception), `dump()`, and `<<` behind `std::setw(indent)`.
pub record JsonLib : Type 1 where
  pub Double : Type 0
  pub parse : List ℕ → Option (Json Double)
  pub dump : Json Double → List ℕ
  pub dump_setw : ℕ → Json Double → List ℕ
