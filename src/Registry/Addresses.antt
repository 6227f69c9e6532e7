-- ===== src/Registry/Addresses.antt =====
-- addAddress and eraseAddress of rpc/rpc_register.cpp.
use c_rpc.Base.{ℕ, List, ◌≡◌, refl, true, false}
use c_rpc.Tables.{IpPort}
use c_rpc.Tables.Erase.{erase_first-emplace}
use c_rpc.Registry.{RpcRegister, add_address, erase_address}

-- An address that was not found under a name is found there once it is added, and erasing it gives
-- back the register as it was.
pub erase_address-add_address :
    (func_name : List ℕ) (address : IpPort) (r : RpcRegister)
    → (erase_address func_name address r).0 ≡ false
    → erase_address func_name address (add_address func_name address r) ≡ (true, r)
unfolding erase_address add_address
erase_address-add_address func_name address r h =
    rw (erase_first-emplace func_name address r.m_addresses h) refl
