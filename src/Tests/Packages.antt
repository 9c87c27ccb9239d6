-- ===== src/Tests/Packages.antt =====
-- A package of three bytes.
use qing_liao_chat_server.Base.{ℕ, ◌≡◌, [], ◌∷◌, arith}
use qing_liao_chat_server.Error.{ok}
use qing_liao_chat_server.Wire.Endian.{Bytes}
use qing_liao_chat_server.Wire.DataPackage.{
  make_package, package_to_string, string_to_package, get_data,
}
use qing_liao_chat_server.Wire.DataPackage.RoundTrip.{string_to_package-package_to_string}

string_to_package-package_to_string_example :
    let bs : Bytes = (1 ∷ 2 ∷ 3 ∷ []) in
    let type : ℕ = 1 in
    let sequence_size : ℕ = 1 in
    let sequence : ℕ = 0 in
    let request_id : ℕ = 77 in
    let p = make_package bs type sequence_size sequence request_id in
    (wire : Bytes) × (package_to_string p ≡ ok wire)
    × (string_to_package wire ≡ ok p)
    × (get_data p ≡ ok bs)
string_to_package-package_to_string_example =
    string_to_package-package_to_string (1 ∷ 2 ∷ 3 ∷ []) 1 1 0 77 (omega arith) (omega arith)
      (omega arith) (omega arith) (omega arith)
