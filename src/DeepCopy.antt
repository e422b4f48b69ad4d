-- ===== src/DeepCopy.antt =====
-- pkg/apis/k8cc.io/v1alpha1/zz_generated.deepcopy.go over an explicit memory.
pub mod Memory
pub mod Pairs
pub mod Pointers
pub mod Raw
pub mod Loads
pub mod Resources
pub mod Statuses
pub mod Objects
pub mod Copies
pub mod Lists
pub mod Independence
mod Tests
