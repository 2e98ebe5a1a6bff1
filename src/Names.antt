-- ===== src/Names.antt =====
-- `EFIStatusToStr` and `EFIMemTypeToString` of efi/src/EFI_STUB.c, which name a status and a memory type for
-- the console. The numbers of the constants are those of the firmware's headers.
pub mod Back
use Prim.Native.String.{String}
use fur_os.Prelude.{ℕ, ◌+◌, ◌^◌, ◌==◌, if◌then◌else◌, List, [], ◌∷◌}

-- `case number: return text;`
abbrev pub Case : Type 0
Case = ℕ × String

-- A `switch` of such cases, and what its `default` returns.
unfoldable pub switch : List Case → String → ℕ → String
switch [] other n = other
switch ((number, text) ∷ cases) other n = if n == number then text else switch cases other n

abbrev pub status_cases : List Case
status_cases =
    (0, "EFI_SUCCESS")
    ∷ (2 ^ 63 + 1, "EFI_LOAD_ERROR")
    ∷ (2 ^ 63 + 2, "EFI_INVALID_PARAMETER")
    ∷ (2 ^ 63 + 3, "EFI_UNSUPPORTED")
    ∷ (2 ^ 63 + 4, "EFI_BAD_BUFFER_SIZE")
    ∷ (2 ^ 63 + 5, "EFI_BUFFER_TOO_SMALL")
    ∷ (2 ^ 63 + 6, "EFI_NOT_READY")
    ∷ (2 ^ 63 + 7, "EFI_DEVICE_ERROR")
    ∷ (2 ^ 63 + 8, "EFI_WRITE_PROTECTED")
    ∷ (2 ^ 63 + 9, "EFI_OUT_OF_RESOURCES")
    ∷ (2 ^ 63 + 10, "EFI_VOLUME_CORRUPTED")
    ∷ (2 ^ 63 + 11, "EFI_VOLUME_FULL")
    ∷ (2 ^ 63 + 12, "EFI_NO_MEDIA")
    ∷ (2 ^ 63 + 13, "EFI_MEDIA_CHANGED")
    ∷ (2 ^ 63 + 14, "EFI_NOT_FOUND")
    ∷ (2 ^ 63 + 15, "EFI_ACCESS_DENIED")
    ∷ (2 ^ 63 + 18, "EFI_TIMEOUT")
    ∷ (2 ^ 63 + 19, "EFI_NOT_STARTED")
    ∷ (2 ^ 63 + 20, "EFI_ALREADY_STARTED")
    ∷ (2 ^ 63 + 21, "EFI_ABORTED")
    ∷ (2 ^ 63 + 22, "EFI_ICMP_ERROR")
    ∷ (2 ^ 63 + 23, "EFI_TFTP_ERROR")
    ∷ (2 ^ 63 + 24, "EFI_PROTOCOL_ERROR")
    ∷ []

unfoldable pub efi_status_to_str : ℕ → String
unfolding switch
efi_status_to_str status = switch status_cases "UNKNOWN_EFI_STATUS" status

abbrev pub memory_type_cases : List Case
memory_type_cases =
    (0, "EfiReservedMemoryType")
    ∷ (1, "EfiLoaderCode")
    ∷ (2, "EfiLoaderData")
    ∷ (3, "EfiBootServicesCode")
    ∷ (4, "EfiBootServicesData")
    ∷ (5, "EfiRuntimeServicesCode")
    ∷ (6, "EfiRuntimeServicesData")
    ∷ (7, "EfiConventionalMemory")
    ∷ (8, "EfiUnusableMemory")
    ∷ (9, "EfiACPIReclaimMemory")
    ∷ (10, "EfiACPIMemoryNVS")
    ∷ (11, "EfiMemoryMappedIO")
    ∷ (12, "EfiMemoryMappedIOPortSpace")
    ∷ (13, "EfiPalCode")
    ∷ (14, "EfiPersistentMemory")
    ∷ (15, "EfiUnacceptedMemoryType")
    ∷ (16, "EfiMaxMemoryType")
    ∷ []

unfoldable pub efi_mem_type_to_string : ℕ → String
unfolding switch
efi_mem_type_to_string memory_type = switch memory_type_cases "EfiInvalidMemoryType" memory_type
