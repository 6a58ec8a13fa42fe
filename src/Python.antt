-- ===== src/Python.antt =====
-- src/python_api.rs: the kernel as a Python class, and the Python values that a request is made of.
pub mod Names
pub mod Objects
pub mod Requests
pub mod Kernel
pub mod Refinement
